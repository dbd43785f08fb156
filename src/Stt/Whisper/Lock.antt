-- ===== src/Stt/Whisper/Lock.antt =====
-- The threads that call `transcribe` of one engine of stt/engines/whispercpp_engine.py, and its
-- `_model_lock`, which lets one of them at a time into the native model. The audio is converted
-- before the lock is taken.
pub mod Laws
mod Tests
use bibi_core.Base.{
  ℕ, ◌≡◌, Option, none, some, List, ite, ℕ_discrete, Result, ok, raise, map, ◌>>=◌,
}
use bibi_core.Base.Int.{ℤ}
use bibi_core.Stt.Models.{AudioChunk, Transcript, SttError, Try}
use bibi_core.Stt.Whisper.{NativeSegment, to_segment, convert_audio}

-- Where a call stands.
pub data Phase (F : Type 0) : Type 0 where
  outside : Phase F
  -- at the `with` statement
  waiting : List AudioChunk → List ℤ → Phase F
  -- in the native model
  inside : List AudioChunk → List ℤ → Phase F
  -- back from `transcribe`
  done : List AudioChunk → Try (Transcript F) → Phase F

pub record Shared (F : Type 0) : Type 0 where
  -- the thread that holds `_model_lock`
  pub lock : Option ℕ
  pub threads : ℕ → Phase F

abbrev pub update : {F : Type 0} → (ℕ → Phase F) → ℕ → Phase F → ℕ → Phase F
update threads i phase thread = ite (ℕ_discrete i thread) phase (threads thread)

abbrev pub moved : {F : Type 0} → Shared F → Option ℕ → ℕ → Phase F → Shared F
moved s lock i phase = record { lock = lock; threads = update s.threads i phase }

-- What `transcribe` makes of the outcome of the native model.
unfoldable pub outcome : {F : Type 0} → Try (List (NativeSegment F)) → Try (Transcript F)
unfolding to_segment
outcome (raise x) = raise x
outcome (ok segments) = ok (record { segments = map to_segment segments; lang = none })

module _ {F : Type 0} (model : List ℤ → Try (List (NativeSegment F))) where
  pub data Step (s : Shared F) : Shared F → Type 0 where
    refused :
        (i : ℕ) (source : List AudioChunk) (x : SttError)
        → s.threads i ≡ outside
        → convert_audio source ≡ raise x
        → Step s (moved s s.lock i (done source (raise x)))
    converted :
        (i : ℕ) (source : List AudioChunk) (samples : List ℤ)
        → s.threads i ≡ outside
        → convert_audio source ≡ ok samples
        → Step s (moved s s.lock i (waiting source samples))
    entered :
        (i : ℕ) (source : List AudioChunk) (samples : List ℤ)
        → s.threads i ≡ waiting source samples
        → s.lock ≡ none
        → Step s (moved s (some i) i (inside source samples))
    -- the `with` statement releases the lock, whether the model returns or raises
    left :
        (i : ℕ) (source : List AudioChunk) (samples : List ℤ)
        → s.threads i ≡ inside source samples
        → Step s (moved s none i (done source (outcome (model samples))))
    -- the caller has the result, and may call again
    taken :
        (i : ℕ) (source : List AudioChunk) (result : Try (Transcript F))
        → s.threads i ≡ done source result
        → Step s (moved s s.lock i outside)

  abbrev pub start : Shared F
  start = record { lock = none; threads = λ _. outside }

  pub data Reach : Shared F → Type 0 where
    here : Reach start
    next : {s t : Shared F} → Reach s → Step s t → Reach t
