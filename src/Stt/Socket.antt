-- ===== src/Stt/Socket.antt =====
-- The websocket `/transcribe-stream` of stt/api/routes.py with its source of stt/engines/audio_sources.py.
-- The client is the list of the frames that it sends before it closes the socket or fails; `refuse i` is
-- the exception with which `send_json` meets the message `i`, if it has gone by then.
pub mod Laws
use bibi_core.Base.{
  ℕ, suc, Bool, true, false, Option, none, some, List, [], ◌∷◌, ◌++◌, map, if◌then◌else◌, ok, raise,
  Text, codes, Result,
}
use bibi_core.Manager.{Manager, acquire_engine}
use bibi_core.Stt.Models.{
  AudioChunk, AudioFormatSpec, Transcript, SttError, model_not_found, invalid_audio_format,
  unexpected, error_message, join_text, Try,
}
use bibi_core.Stt.Audio.{Resampler, calculate_duration, at_least}
use bibi_core.Stt.Servicer.{Emitted, emit, prepare_and_transcribe}

-- `WebSocketAudioSource.receive_chunk`
unfoldable pub receive_chunk : List ℕ → AudioChunk
receive_chunk frame = record { bytes = frame; sample_rate = 16000; channels = 1; sample_width = 2 }

module _ {A : Type 0} (run : List AudioChunk → Try A) where
  -- A window that is full: what `run`, preparation and transcription, gives is sent.
  unfoldable pub after_window : Option SttError → Try A → Emitted A → Emitted A
  after_window refused (raise x) rest = ([], some x)
  after_window (some y) (ok a) rest = ([], some y)
  after_window none (ok a) rest = emit a rest

  -- The `while` loop, with the number of the messages that were sent and the buffer that it carries.
  unfoldable pub window_loop :
      (ℕ → Option SttError) → ℕ → List AudioChunk → List AudioChunk → Emitted A
  unfolding after_window
  window_loop refuse i buffer [] = ([], none)
  window_loop refuse i buffer (c ∷ cs) =
      let grown = buffer ++ c ∷ [] in
      let cleared = window_loop refuse (suc i) [] cs in
      let carried = window_loop refuse i grown cs in
      elim (calculate_duration grown) [
        | raise x ↦ ([], some x)
        | ok d ↦ if at_least d 5 then after_window (refuse i) (run grown) cleared else carried
      ]

-- How the handler ends: it returns, closes the socket with a reason, or lets an exception through.
pub data Ending : Type 0 where
  left : Ending
  closed_with : Text → Ending
  failed : SttError → Ending

unfoldable pub ending_of : Option SttError → Ending
ending_of none = left
ending_of (some (model_not_found name)) = closed_with (error_message (model_not_found name))
ending_of (some (invalid_audio_format t)) = closed_with (error_message (invalid_audio_format t))
ending_of (some (unexpected t)) = failed (unexpected t)

-- The texts that were sent, and the end.
pub record Session : Type 0 where
  pub sent : List Text
  pub end : Ending

-- `transcript.text`
abbrev pub text_of : {F : Type 0} → Transcript F → Text
text_of t = join_text t.segments

unfoldable pub session : {F : Type 0} → Try (Emitted (Transcript F)) → Session
unfolding ending_of
session (raise x) = record { sent = []; end = ending_of (some x) }
session (ok (ts, x)) = record { sent = map text_of ts; end = ending_of x }

module _ {E F : Type 0} (np : Resampler) (required : Option AudioFormatSpec)
    (transcribe : E → List AudioChunk → Try (Transcript F)) (load : Text → Try E) where
  unfoldable pub transcribe_stream :
      (ℕ → Option SttError) → Manager E → List (List ℕ) → Manager E × Session
  unfolding window_loop session acquire_engine
  transcribe_stream refuse m frames =
      let (m', result) =
        acquire_engine model_not_found (unexpected (codes "KeyError")) load
          (λ held e. (
            held,
            ok (
                window_loop (prepare_and_transcribe np required transcribe e) refuse 0 []
                  (map receive_chunk frames)),
          ))
          m none in
      (m', session result)
