-- ===== src/Tts/Service.antt =====
-- tts/grpc_servicer.py and POST `/tts` of tts/api/routes.py, over the engine manager and the audio
-- stream of the engine. `iter_in_thread` hands on the stream as it is. `cancelled` says for each chunk
-- whether the client had cancelled when it came.
pub mod Laws
use bibi_core.Base.{
  ℕ, suc, Bool, true, false, Option, none, some, List, [], ◌∷◌, ◌++◌, if◌then◌else◌, ok, raise,
  Text, codes, Result, text_eq,
}
use bibi_core.Manager.{Manager, acquire_engine}
use bibi_core.Tts.Models.{
  AudioChunk, TtsError, voice_not_found, value_error, type_error, unexpected, error_message, Try,
  Stream, Wav, encode,
}

pub data Status : Type 0 where
  not_found internal : Status

-- The messages of an RPC, and the status that `context.abort` gives it, if it is not OK.
pub record Reply : Type 0 where
  pub sent : List AudioChunk
  pub status : Option (Status × Text)

abbrev pub send : AudioChunk → Stream → Stream
send c (cs, x) = (c ∷ cs, x)

-- The `async for` loop of `StreamSynthesize`; `i` counts the chunks.
unfoldable pub send_loop : (ℕ → Bool) → ℕ → List AudioChunk → Option TtsError → Stream
send_loop cancelled i [] x = ([], x)
send_loop cancelled i (c ∷ cs) x =
    let rest = send_loop cancelled (suc i) cs x in if cancelled i then ([], none) else send c rest

unfoldable pub status_of : TtsError → Status
status_of (voice_not_found t) = not_found
status_of (value_error t) = internal
status_of (type_error t) = internal
status_of (unexpected t) = internal

-- The `except` clauses.
unfoldable pub aborted : Option TtsError → Option (Status × Text)
unfolding status_of
aborted none = none
aborted (some x) = some (status_of x, error_message x)

unfoldable pub replied : Try Stream → Reply
unfolding aborted
replied (raise x) = record { sent = []; status = aborted (some x) }
replied (ok (cs, x)) = record { sent = cs; status = aborted x }

abbrev pub voice_error : Text → TtsError
voice_error name = voice_not_found (codes "Voice not found: " ++ name)

abbrev pub key_error : TtsError
key_error = unexpected (codes "KeyError")

-- What an HTTP route does: an HTTPException with its status code and detail, an exception that the
-- code lets through, or a body.
pub data Response : Type 0 where
  http_error : ℕ → Text → Response
  failed : TtsError → Response
  success : Wav → Response

unfoldable pub responded : Try Wav → Response
responded (raise (voice_not_found t)) = http_error 404 t
responded (raise (value_error t)) = http_error 422 t
responded (raise (type_error t)) = failed (type_error t)
responded (raise (unexpected t)) = failed (unexpected t)
responded (ok wav) = success wav

module _ {E : Type 0} (stream : E → Text → Stream) (load : Text → Try E) where
  unfoldable pub stream_synthesize : (ℕ → Bool) → Manager E → Option Text → Text → Manager E × Reply
  unfolding send_loop replied acquire_engine
  stream_synthesize cancelled m voice text =
      let (m', result) =
        acquire_engine voice_error key_error load
          (λ held e. (held, ok (send_loop cancelled 0 (stream e text).0 (stream e text).1))) m
          voice in
      (m', replied result)

  -- `format` is `request.format`.
  unfoldable pub create_wav :
      (AudioChunk → Option Text) → Text → Manager E → Option Text → Text → Manager E × Response
  unfolding responded acquire_engine text_eq
  create_wav refused format m voice text =
      let (m', result) =
        acquire_engine voice_error key_error load (λ held e. (held, encode refused (stream e text)))
          m voice in
      if text_eq format (codes "wav")
      then (m', responded result)
      else (m, http_error 400 (codes "Unsupported format: " ++ format))

-- `HealthResponse`
pub record Health : Type 0 where
  pub healthy : Bool
  pub voices_available : List Text

-- `HealthCheck`; `list_voices` returns the names or raises.
unfoldable pub health_check : Try (List Text) → Health
health_check (ok voices) = record { healthy = true; voices_available = voices }
health_check (raise x) = record { healthy = false; voices_available = [] }
