-- ===== src/Stt/Servicer/Events.antt =====
-- The order of the events of a response, and the reference counts after it.
use bibi_core.Base.{
  Result-cases, ◌≡◌, refl, ◌⊎◌, inl, inr, Option, none, some, List, [], ◌∷◌, ◌++◌, ok, raise, arith,
  Text, codes,
}
use bibi_core.Stt.Models.{
  AudioChunk, AudioFormatSpec, Transcript, SttError, Try, model_not_found, unexpected,
}
use bibi_core.Stt.Audio.{Resampler}
use bibi_core.Stt.Servicer.{
  Message, chunk_from_proto, EventType, partial, final, TranscriptEvent, Emitted, flush,
  utterance_loop, event_of, error_events, handle, prepare_and_transcribe, stream_transcribe,
}
use bibi_core.Manager.{Manager, or_default, get_or_load}
use bibi_core.Manager.Laws.{IsManager}
use bibi_core.Manager.Acquire.{SameCounts, acquire_engine_balanced}

-- Every item but the last is PARTIAL, and nothing follows a FINAL, not even an exception.
abbrev Ordered : {A : Type 0} → List (EventType × A) → Option SttError → Type 0
Ordered [] x = Unit
Ordered ((k, a) ∷ items) x =
    ((k ≡ partial) × Ordered items x) ⊎ ((k ≡ final) × (items ≡ []) × (x ≡ none))

module _ {A : Type 0} (run : List AudioChunk → Try A) where
  Ordered-partial :
      (a : Try A) (rest : Emitted (EventType × A))
      → Ordered rest.0 rest.1
      → Ordered (flush run partial a rest).0 (flush run partial a rest).1
  unfolding flush
  Ordered-partial (ok a) (items, x) h = inl (refl, h)
  Ordered-partial (raise y) rest h = tt

  Ordered-final :
      (a : Try A) → Ordered (flush run final a ([], none)).0 (flush run final a ([], none)).1
  unfolding flush
  Ordered-final (ok a) = inr (refl, refl, refl)
  Ordered-final (raise y) = tt

  utterance_loop-Ordered :
      (buffer : List AudioChunk) (ms : List Message)
      → Ordered (utterance_loop run buffer ms).0 (utterance_loop run buffer ms).1
  unfolding utterance_loop
  utterance_loop-Ordered buffer [] = tt
  utterance_loop-Ordered buffer (m ∷ ms) =
      let grown = buffer ++ chunk_from_proto m ∷ [] in
      ground (
        arith,
        Ordered-partial (run grown) (utterance_loop run [] ms) (utterance_loop-Ordered [] ms),
        Ordered-final (run grown),
        utterance_loop-Ordered grown ms,
      )

-- Every event but the last is PARTIAL.
abbrev pub IsResponse : {F : Type 0} → List (TranscriptEvent F) → Type 0
IsResponse [] = Unit
IsResponse (e ∷ es) = ((e.type ≡ partial) × IsResponse es) ⊎ (es ≡ [])

module _ {F : Type 0} where
  handled :
      (items : List (EventType × Transcript F)) (x : Option SttError)
      → Ordered items x
      → IsResponse (handle (ok (items, x)))
  unfolding handle event_of error_events
  handled [] none h = tt
  handled [] (some x) h = inr refl
  handled ((k, t) ∷ items) x (inl (p, h)) = inl (p, handled items x h)
  handled ((k, t) ∷ items) x (inr (_, last, quiet)) = inr (rw (last, quiet))

  module _ {E : Type 0} (np : Resampler) (transcribe : E → List AudioChunk → Try (Transcript F))
      (load : Text → Try E) where
    -- For a manager in order, whatever the engine, the loader and the client do, the response
    -- of StreamTranscribe is a run of PARTIAL events closed by at most one other event, and the
    -- manager is in order again with every reference count as before the call.
    pub stream_transcribe-IsResponse :
        (required : Option AudioFormatSpec) (m : Manager E) (ms : List Message)
        → IsManager m
        → let out = stream_transcribe np required transcribe load m ms in
          IsResponse out.1 × IsManager out.0 × SameCounts m out.0
    unfolding stream_transcribe handle error_events
    stream_transcribe-IsResponse required m ms v =
        let body : Manager E → E → Manager E × Try (Emitted (EventType × Transcript F)) = λ held e.
          (held, ok (utterance_loop (prepare_and_transcribe np required transcribe e) [] ms)) in
        let key_error = unexpected (codes "KeyError") in
        let g = get_or_load model_not_found key_error load m (or_default none m.default) in
        let (kept, same, raised, returned) =
          acquire_engine_balanced model_not_found key_error load body m none
            (λ held e w. (w, λ j. refl)) v in
        (
          elim (Result-cases g.1) [
            | inl (e, h) ↦ rw (returned e h) (
                handled _ _
                  (utterance_loop-Ordered (prepare_and_transcribe np required transcribe e) [] ms))
            | inr (x, h) ↦ rw (raised x h) (inr refl)
          ],
          kept,
          same,
        )
