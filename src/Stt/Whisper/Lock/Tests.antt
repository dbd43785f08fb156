-- ===== src/Stt/Whisper/Lock/Tests.antt =====
-- Two threads with one engine: the first is in the native model, the second waits.
use bibi_core.Base.{ℕ, ◌≡◌, refl, none, some, List, [], ◌∷◌, ℕ_discrete, ok}
use bibi_core.Base.Int.{ℤ, pos}
use bibi_core.Stt.Models.{AudioChunk, Transcript, Try}
use bibi_core.Stt.Whisper.{NativeSegment, convert_audio, transcribe}
use bibi_core.Stt.Whisper.Lock.{
  waiting, inside, done, Shared, moved, converted, entered, start, Reach, here, next,
}
use bibi_core.Stt.Whisper.Lock.Laws.{CanEnter, serialized}

abbrev silent : AudioChunk
silent = record { bytes = 5 ∷ 0 ∷ []; sample_rate = 16000; channels = 1; sample_width = 2 }

-- A model that hears nothing.
abbrev deaf : List ℤ → Try (List (NativeSegment ℕ))
deaf samples = ok []

abbrev one_inside : Shared ℕ
one_inside =
    moved (moved (start deaf) none 0 (waiting (silent ∷ []) (pos 5 ∷ []))) (some 0) 0
      (inside (silent ∷ []) (pos 5 ∷ []))

abbrev contended : Shared ℕ
contended = moved one_inside (some 0) 1 (waiting (silent ∷ []) (pos 5 ∷ []))

contended_Reach : Reach deaf contended
unfolding convert_audio ℕ_discrete
contended_Reach =
    next
      (next (next here (converted 0 (silent ∷ []) (pos 5 ∷ []) refl refl))
        (entered 0 (silent ∷ []) (pos 5 ∷ []) refl refl))
      (converted 1 (silent ∷ []) (pos 5 ∷ []) refl refl)

serialized_example :
    ((i j : ℕ) (a b : List AudioChunk) (xs ys : List ℤ)
      → contended.threads i ≡ inside a xs
      → contended.threads j ≡ inside b ys
      → i ≡ j)
    × ((i : ℕ) (source : List AudioChunk) (result : Try (Transcript ℕ))
        → contended.threads i ≡ done source result
        → result ≡ transcribe deaf source)
    × ((i : ℕ) (source : List AudioChunk) (samples : List ℤ)
        → contended.threads i ≡ waiting source samples
        → CanEnter deaf contended i source samples)
serialized_example = serialized deaf contended_Reach
