-- ===== src/Tts/Socket.antt =====
-- The websocket `/tts-stream` of tts/api/routes.py: one request, the audio, and the close frame.
pub mod Laws
mod Tests
use bibi_core.Base.{
  ℕ, Bool, true, false, not, Option, none, some, List, [], ◌∷◌, ◌++◌, if◌then◌else◌, ok, raise,
  Result, Text, codes, strip, ◌>>=◌,
}
use bibi_core.Manager.{Manager, acquire_engine}
use bibi_core.Tts.Models.{
  AudioChunk, TtsError, voice_not_found, value_error, type_error, unexpected, Try, Stream,
}
use bibi_core.Tts.Service.{voice_error, key_error}
use bibi_core.Tts.Sinks.{write_http}

-- A value of the JSON object that the client sends; the ones that Python takes for true are apart,
-- each with the text of the TypeError that `Path` raises for it.
pub data Json : Type 0 where
  missing : Json
  text : Text → Json
  falsy : Json
  truthy : Text → Json

pub record Request : Type 0 where
  pub text : Json
  pub voice : Json

-- How the session ends: with a close frame of a code and a reason, or by an exception.
pub data Ending : Type 0 where
  closed : ℕ → Text → Ending
  failed : TtsError → Ending

pub record Session : Type 0 where
  pub sent : List (List ℕ)
  pub ending : Ending

-- `text`, if it is a `str` with something in it besides white space
unfoldable pub text_of : Json → Option Text
unfolding strip
text_of missing = none
text_of falsy = none
text_of (truthy t) = none
text_of (text t) = elim (strip t) [ [] ↦ none | c ∷ s ↦ some t ]

-- What `voice or default` takes: the name, or the TypeError of the first use as a path.
unfoldable pub voice_of : Json → Try (Option Text)
voice_of missing = ok none
voice_of falsy = ok none
voice_of (text t) = ok (some t)
voice_of (truthy t) = raise (type_error t)

-- The `except` clause and the last line.
unfoldable pub ending_of : Option TtsError → Ending
ending_of none = closed 1000 []
ending_of (some (voice_not_found t)) = closed 1008 t
ending_of (some (type_error t)) = closed 1008 t
ending_of (some (value_error t)) = failed (value_error t)
ending_of (some (unexpected t)) = failed (unexpected t)

unfoldable pub session_of : Try (List (List ℕ) × Option TtsError) → Session
unfolding ending_of
session_of (raise x) = record { sent = []; ending = ending_of (some x) }
session_of (ok (frames, x)) = record { sent = frames; ending = ending_of x }

module _ {E : Type 0} (stream : E → Text → Stream) (load : Text → Try E)
    (refuse : ℕ → Option TtsError) where
  -- The `with` block, for a text.
  unfoldable pub speak : Manager E → Text → Try (Option Text) → Manager E × Session
  unfolding session_of write_http acquire_engine
  speak m t (raise x) = (m, session_of (raise x))
  speak m t (ok voice) =
      let (m', result) =
        acquire_engine voice_error key_error load
          (λ held e. (held, ok (write_http refuse 0 (stream e t).0 (stream e t).1))) m voice in
      (m', session_of result)

  -- `tts_stream`, for a request that is a JSON object
  unfoldable pub tts_stream : Manager E → Request → Manager E × Session
  unfolding text_of voice_of speak
  tts_stream m request = elim (text_of request.text) [
    | none ↦ (m, record { sent = []; ending = closed 1008 (codes "text is required") })
    | some t ↦ speak m t (voice_of request.voice)
  ]
