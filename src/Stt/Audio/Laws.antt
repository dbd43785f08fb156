-- ===== src/Stt/Audio/Laws.antt =====
-- What conversion guarantees to the engine.
use bibi_core.Base.{
  ok_injective, suc, ◌≡◌, refl, sym, ap, true, some, List, [], ◌∷◌, ok, arith, All, length,
  bind_returns, Bool-cases, inl, inr,
}
use bibi_core.Stt.Models.{AudioChunk, AudioFormatSpec}
use bibi_core.Stt.Samples.{to_int16, from_int16}
use bibi_core.Stt.Audio.{Resampler, same_format, convert_chunk, convert_chunks, remix, resample}

abbrev pub HasFormat : AudioFormatSpec → AudioChunk → Type 0
HasFormat f c =
    (c.sample_rate ≡ f.sample_rate) × (c.channels ≡ f.channels) × (c.sample_width ≡ f.sample_width)

module _ (target : AudioFormatSpec) where
  pub same_format_sound : (c : AudioChunk) → same_format c target ≡ true → HasFormat target c
  unfolding same_format
  same_format_sound c h = ground arith

  same_format_of : (c : AudioChunk) → HasFormat target c → same_format c target ≡ true
  unfolding same_format
  same_format_of c h = ground arith

module _ (np : Resampler) (target : AudioFormatSpec) where
  convert_chunk_same : (c : AudioChunk) → HasFormat target c → convert_chunk np c target ≡ ok c
  unfolding convert_chunk
  convert_chunk_same c h = rw (same_format_of target c h)

  convert_chunk-HasFormat :
      (c d : AudioChunk) → convert_chunk np c target ≡ ok d → HasFormat target d
  unfolding convert_chunk
  convert_chunk-HasFormat c d h = elim (Bool-cases (same_format c target)) [
    | inl same ↦ rw (sym (ok_injective (rw same at h))) (same_format_sound target c same)
    | inr other ↦
        let (samples, _, h1) = bind_returns (to_int16 c.bytes c.sample_width) _ (rw other at h) in
        let (mixed, _, h2) = bind_returns (remix samples c.channels target.channels) _ h1 in
        let (resampled, _, h3) =
          bind_returns (resample np mixed c.sample_rate target.sample_rate) _ h2 in
        let (bytes, _, h4) = bind_returns (from_int16 resampled target.sample_width) _ h3 in
        ground arith
  ]

  -- If convert_chunks succeeds, every chunk that comes out has the required format, there is
  -- one for each chunk that came in, and chunks that had the format already come out as they
  -- were.
  pub convert_chunks-HasFormat :
      (cs ds : List AudioChunk)
      → convert_chunks np cs (some target) ≡ ok ds
      → All (HasFormat target) ds × (length ds ≡ length cs) × (All (HasFormat target) cs → ds ≡ cs)
  unfolding convert_chunks
  convert_chunks-HasFormat [] ds h = rw (sym (ok_injective h)) (tt, refl, λ _. refl)
  convert_chunks-HasFormat (c ∷ cs) ds h =
      let (first, one, h1) = bind_returns (convert_chunk np c target) _ h in
      let (rest, others, h2) = bind_returns (convert_chunks np cs (some target)) _ h1 in
      let (formats, count, kept) = convert_chunks-HasFormat cs rest others in
      rw (sym (ok_injective h2)) (
        (convert_chunk-HasFormat c first one, formats),
        ap suc count,
        λ same. ground (arith, convert_chunk_same c same.0, kept same.1),
      )

  -- Audio that has the format already passes through.
  pub convert_chunks_same :
      (cs : List AudioChunk)
      → All (HasFormat target) cs
      → convert_chunks np cs (some target) ≡ ok cs
  unfolding convert_chunks
  convert_chunks_same [] h = refl
  convert_chunks_same (c ∷ cs) h = rw (convert_chunk_same c h.0, convert_chunks_same cs h.1)
