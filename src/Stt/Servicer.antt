-- ===== src/Stt/Servicer.antt =====
-- stt/grpc_servicer.py and stt/pb_convert.py. The request stream is the list of messages that arrive
-- before the client closes it; each carries what `context.cancelled()` says when it is read. The
-- response is the list of events.
pub mod Stream
pub mod Events
pub mod Runs
pub mod Marker
pub mod Refusals
mod Tests
use bibi_core.Base.{
  ℕ, Bool, true, false, not, ◌&&◌, ◌||◌, Option, none, some, List, [], ◌∷◌, ◌++◌, map,
  if◌then◌else◌, ok, raise, Text, codes, Result, ◌>>=◌, length, ltb, leb, ◌==◌,
}
use bibi_core.Stt.Models.{
  AudioChunk, AudioFormatSpec, TranscriptSegment, Transcript, SttError, Try, error_code,
  error_message, model_not_found, unexpected,
}
use bibi_core.Stt.Audio.{Resampler, calculate_duration, at_least, convert_chunks}
use bibi_core.Manager.{Manager, acquire_engine}

-- `AudioChunkMsg`
pub record Message : Type 0 where
  pub bytes : List ℕ
  pub sample_rate : ℕ
  pub channels : ℕ
  pub sample_width : ℕ
  pub end_of_utterance : Bool
  pub cancelled : Bool

unfoldable pub chunk_from_proto : Message → AudioChunk
chunk_from_proto m = record {
  bytes = m.bytes;
  sample_rate = m.sample_rate;
  channels = m.channels;
  sample_width = m.sample_width;
}

pub data EventType : Type 0 where
  partial final error : EventType

-- `TranscriptSegmentMsg`; an optional field that is not set is `none`.
pub record SegmentMessage (F : Type 0) : Type 0 where
  pub start_ms : ℕ
  pub end_ms : ℕ
  pub text : Text
  pub score : Option F

-- `TranscriptEvent`; a text that is not set is empty.
pub record TranscriptEvent (F : Type 0) : Type 0 where
  pub type : EventType
  pub segments : List (SegmentMessage F)
  pub lang : Option Text
  pub error_code : Text
  pub error_message : Text

module _ {F : Type 0} where
  unfoldable pub segment_to_proto : TranscriptSegment F → SegmentMessage F
  segment_to_proto s = record {
    start_ms = s.start_ms;
    end_ms = s.end_ms;
    text = s.text;
    score = s.score;
  }

  unfoldable pub transcript_to_event : Transcript F → EventType → TranscriptEvent F
  unfolding segment_to_proto
  transcript_to_event t kind = record {
    type = kind;
    segments = map segment_to_proto t.segments;
    lang = t.lang;
    error_code = [];
    error_message = [];
  }

  unfoldable pub error_event : Text → Text → TranscriptEvent F
  error_event code message = record {
    type = error;
    segments = [];
    lang = none;
    error_code = code;
    error_message = message;
  }

abbrev pub window_seconds : ℕ
window_seconds = 5

unfoldable pub is_empty : {A : Type 0} → List A → Bool
is_empty [] = true
is_empty (x ∷ xs) = false

-- What a generator yields, and the exception that ends it, if one does.
abbrev pub Emitted : Type 0 → Type 0
Emitted A = List A × Option SttError

abbrev pub emit : {A : Type 0} → A → Emitted A → Emitted A
emit a (items, x) = (a ∷ items, x)

module _ {A : Type 0} (run : List AudioChunk → Try A) where
  -- The flush of a window: what `run`, preparation and transcription, gives is yielded with its type.
  unfoldable pub flush : EventType → Try A → Emitted (EventType × A) → Emitted (EventType × A)
  flush kind (raise x) rest = ([], some x)
  flush kind (ok a) rest = emit (kind, a) rest

  -- The `async for` loop, with the buffer that it carries.
  unfoldable pub utterance_loop : List AudioChunk → List Message → Emitted (EventType × A)
  unfolding flush chunk_from_proto is_empty
  utterance_loop buffer [] = ([], none)
  utterance_loop buffer (m ∷ ms) =
      let grown = buffer ++ chunk_from_proto m ∷ [] in
      let cleared = utterance_loop [] ms in
      let carried = utterance_loop grown ms in
      if m.cancelled then ([], none) else elim (calculate_duration grown) [
        | raise x ↦ ([], some x)
        | ok d ↦
            if (at_least d window_seconds || m.end_of_utterance) && not (is_empty grown)
            then flush (if m.end_of_utterance then final else partial) (run grown)
                (if m.end_of_utterance then ([], none) else cleared)
            else (if m.end_of_utterance then ([], none) else carried)
      ]

module _ {F : Type 0} where
  unfoldable pub event_of : EventType × Transcript F → TranscriptEvent F
  unfolding transcript_to_event
  event_of (kind, t) = transcript_to_event t kind

  -- The `except` clauses: each ends the stream with one error event.
  unfoldable pub error_events : Option SttError → List (TranscriptEvent F)
  unfolding error_event
  error_events none = []
  error_events (some x) = error_event (error_code x) (error_message x) ∷ []

  unfoldable pub handle : Try (Emitted (EventType × Transcript F)) → List (TranscriptEvent F)
  unfolding event_of error_events
  handle (raise x) = error_events (some x)
  handle (ok (events, x)) = map event_of events ++ error_events x

  -- `prepare_audio`, then `engine.transcribe`
  unfoldable pub prepare_and_transcribe :
      {E : Type 0}
      → Resampler
      → Option AudioFormatSpec
      → (E → List AudioChunk → Try (Transcript F))
      → E
      → List AudioChunk
      → Try (Transcript F)
  prepare_and_transcribe np required transcribe e buffer =
      convert_chunks np buffer required >>= transcribe e

  module _ {E : Type 0} (np : Resampler) (required : Option AudioFormatSpec)
      (transcribe : E → List AudioChunk → Try (Transcript F)) (load : Text → Try E) where
    unfoldable pub stream_transcribe :
        Manager E → List Message → Manager E × List (TranscriptEvent F)
    unfolding prepare_and_transcribe utterance_loop handle acquire_engine
    stream_transcribe m messages =
        let (m', result) =
          acquire_engine model_not_found (unexpected (codes "KeyError")) load
            (λ held e. (
              held,
              ok (utterance_loop (prepare_and_transcribe np required transcribe e) [] messages),
            ))
            m none in
        (m', handle result)

-- `HealthResponse`
pub record Health : Type 0 where
  pub healthy : Bool
  pub model_loaded : Text

-- `list_models` returns the names or raises.
unfoldable pub health_check : {E : Type 0} → Try (List Text) → Manager E → Health
health_check (ok models) m = record { healthy = ltb 0 (length models); model_loaded = m.default }
health_check (raise x) m = record { healthy = false; model_loaded = [] }
