-- ===== src/Stt/Whisper/Laws.antt =====
-- Audio that was prepared, at the engine.
use bibi_core.Base.{
  ℕ, ◌≡◌, refl, ap, ◌∙◌, ◌≢◌, Option, none, some, List, [], ◌∷◌, ◌++◌, ok, arith, All, ◌>>=◌, ◌⊎◌,
  inl, inr,
}
use bibi_core.Stt.Models.{AudioChunk, AudioFormatSpec}
use bibi_core.Stt.Samples.{read_int16}
use bibi_core.Stt.Audio.{Resampler, convert_chunks}
use bibi_core.Stt.Audio.Laws.{HasFormat, convert_chunks-HasFormat}
use bibi_core.Stt.Whisper.{
  required_format, validate_chunk, format_or, collect, pcm_to_samples, convert_audio,
}

unfoldable pub join_bytes : List AudioChunk → List ℕ
join_bytes [] = []
join_bytes (c ∷ cs) = c.bytes ++ join_bytes cs

validate_right :
    (f : Option AudioFormatSpec) (c : AudioChunk)
    → (f ≡ none) ⊎ (f ≡ some required_format)
    → HasFormat required_format c
    → (validate_chunk (format_or f c) c ≡ ok tt) × (some (format_or f c) ≡ some required_format)
unfolding validate_chunk
validate_right f c e h = ground arith

collect_right :
    (f : Option AudioFormatSpec) (cs : List AudioChunk)
    → (f ≡ none) ⊎ (f ≡ some required_format)
    → All (HasFormat required_format) cs
    → collect f cs ≡ ok (join_bytes cs)
unfolding collect join_bytes
collect_right f [] e h = refl
collect_right f (c ∷ cs) e h =
    let (valid, next) = validate_right f c e h.0 in
    rw (valid, collect_right (some (format_or f c)) cs (inr next) h.1)

-- Audio that convert_chunks prepared for the format of the engine is never refused by its
-- validation: the engine reads all its bytes in order, and fails only on no bytes at all or on
-- half a sample.
pub convert_audio-prepared :
    (np : Resampler) (cs ds : List AudioChunk)
    → convert_chunks np cs (some required_format) ≡ ok ds
    → (convert_audio ds ≡ pcm_to_samples (join_bytes ds))
      × (join_bytes ds ≢ [] → convert_audio ds ≡ read_int16 (join_bytes ds))
unfolding convert_audio
convert_audio-prepared np cs ds h =
    let formats = (convert_chunks-HasFormat np required_format cs ds h).0 in
    let all = ap (λ r. r >>= pcm_to_samples) (collect_right none ds (inl refl) formats) in
    (all, λ some_bytes. all ∙ nonempty (join_bytes ds) some_bytes)
  where
    nonempty : (bs : List ℕ) → bs ≢ [] → pcm_to_samples bs ≡ read_int16 bs
    nonempty [] h = absurd (h refl)
    nonempty (b ∷ bs) h = unfold pcm_to_samples in refl
