-- ===== src/Stt/Audio/Bounds.antt =====
-- Ranges and lengths of the audio that `_convert_chunk` makes.
use native.Mathlib.Nat.{div-le_of_le-mul, div-add-mod'}
use bibi_core.Base.{
  raise_ok, ℕ, zero, suc, ◌*◌, ◌/◌, ◌%◌, ◌≤◌, ◌<◌, max, ◌≡◌, refl, sym, ap, ◌∙◌, not, ◌||◌, ◌==◌,
  List, [], ◌∷◌, ok, arith, All, length, Bool-cases, inl, inr, bind_returns, ok_injective,
}
use bibi_core.Base.Int.{ℤ, pos, negsuc, trunc_div, ◌+ℤ◌}
use bibi_core.Stt.Models.{AudioChunk, AudioFormatSpec}
use bibi_core.Stt.Samples.{to_int16, from_int16}
use bibi_core.Stt.Samples.Laws.{IsByte, IsInt16}
use bibi_core.Stt.Samples.Bounds.{to_int16_lem, from_int16_lem, from_int16_width}
use bibi_core.Stt.Audio.{
  Resampler, frame_sum, frame_means, to_mono, remix, resample, same_format, convert_chunk,
}
use bibi_core.Stt.Audio.Laws.{same_format_sound}

-- At most the sum of `k` samples.
abbrev IsSum : ℕ → ℤ → Type 0
IsSum k (pos n) = n ≤ 32767 * k
IsSum k (negsuc n) = suc n ≤ 32768 * k

IsSum-add : (k : ℕ) (y z : ℤ) → IsInt16 y → IsSum k z → IsSum (suc k) (y +ℤ z)
IsSum-add k (pos a) (pos b) h l = ground arith
IsSum-add k (pos a) (negsuc b) h l = ground arith
IsSum-add k (negsuc a) (pos b) h l = ground arith
IsSum-add k (negsuc a) (negsuc b) h l = ground arith

IsInt16-trunc_div : (k : ℕ) (z : ℤ) → 0 < k → IsSum k z → IsInt16 (trunc_div z k)
IsInt16-trunc_div k (pos a) some_k h =
    omega (arith, div-le_of_le-mul k {m = a} {n = 32767} (omega (arith, h)))
IsInt16-trunc_div k (negsuc a) some_k h =
    let most : suc a / k ≤ 32768 = div-le_of_le-mul k {m = suc a} {n = 32768} (omega (arith, h)) in
    ground (arith, most)

frame_sum_lem :
    (n : ℕ) (zs : List ℤ)
    → All IsInt16 zs
    → IsSum n (frame_sum n zs).0 × All IsInt16 (frame_sum n zs).1
unfolding frame_sum
frame_sum_lem zero zs h = (omega arith, h)
frame_sum_lem (suc n) [] h = (omega arith, tt)
frame_sum_lem (suc n) (z ∷ zs) h =
    let (total, rest) = frame_sum_lem n zs h.1 in (IsSum-add n z (frame_sum n zs).0 h.0 total, rest)

frame_means_lem :
    (frames channels : ℕ) (zs : List ℤ)
    → 0 < channels
    → All IsInt16 zs
    → All IsInt16 (frame_means frames channels zs)
      × (length (frame_means frames channels zs) ≡ frames)
unfolding frame_means
frame_means_lem zero channels zs some_channel h = (tt, refl)
frame_means_lem (suc frames) channels zs some_channel h =
    let (total, rest) = frame_sum_lem channels zs h in
    let (means, count) =
      frame_means_lem frames channels (frame_sum channels zs).1 some_channel rest in
    ((IsInt16-trunc_div channels (frame_sum channels zs).0 some_channel total, means), ap suc count)

-- Mixing to one channel.
to_mono_lem :
    (zs ys : List ℤ) (channels : ℕ)
    → All IsInt16 zs
    → to_mono zs channels ≡ ok ys
    → All IsInt16 ys × (length ys * channels ≡ length zs)
unfolding to_mono
to_mono_lem zs ys channels h e =
    elim (Bool-cases (channels == 0 || not (length zs % channels == 0))) [
      | inl bad ↦ absurd (raise_ok (rw bad at e))
      | inr good ↦
          let (some_channel, whole) : (0 < channels) × (length zs % channels ≡ 0) =
            (ground (arith, good), ground (arith, good)) in
          let (range, count) = frame_means_lem (length zs / channels) channels zs some_channel h in
          rw (sym (ok_injective (rw good at e)))
            (range, rw count (omega (arith, whole, div-add-mod' (length zs) channels)))
    ]

remix_lem :
    (zs ys : List ℤ) (channels target : ℕ)
    → All IsInt16 zs
    → remix zs channels target ≡ ok ys
    → All IsInt16 ys × (length ys * channels ≡ length zs * target)
unfolding remix
remix_lem zs ys channels target h e = elim (Bool-cases (channels == target)) [
  | inl same ↦
      let here : channels ≡ target = ground (arith, same) in
      rw (sym (ok_injective (rw same at e))) (h, rw here refl)
  | inr other ↦ elim (Bool-cases (target == 1)) [
    | inr many ↦ absurd (raise_ok (rw (other, many) at e))
    | inl one ↦
        let (range, count) = to_mono_lem zs ys channels h (rw (other, one) at e) in
        let here : target ≡ 1 = ground (arith, one) in (range, rw here (omega (arith, count)))
  ]
]

-- What is relied on of numpy: an interpolation of 16-bit samples at `n` times is `n` such samples.
pub record IsResampler (np : Resampler) : Type 0 where
  pub range : (n : ℕ) (zs : List ℤ) → All IsInt16 zs → All IsInt16 (np.interpolate n zs)
  pub count : (n : ℕ) (zs : List ℤ) → length (np.interpolate n zs) ≡ n

factor_some : (m n : ℕ) → 0 < m * n → 0 < m
factor_some zero n h = absurd (omega (arith, h))
factor_some (suc m) n h = omega arith

times_some : (m n : ℕ) → 0 < m → 0 < n → 0 < m * n
times_some zero n h k = absurd (omega (arith, h))
times_some (suc m) zero h k = absurd (omega (arith, k))
times_some (suc m) (suc n) h k = omega arith

remix_some :
    (zs ys : List ℤ) (channels target : ℕ)
    → All IsInt16 zs
    → remix zs channels target ≡ ok ys
    → 0 < length zs
    → 0 < length ys
unfolding remix
remix_some zs ys channels target h e some_zs = elim (Bool-cases (channels == target)) [
  | inl same ↦ rw (sym (ok_injective (rw same at e))) some_zs
  | inr other ↦ elim (Bool-cases (target == 1)) [
    | inr many ↦ absurd (raise_ok (rw (other, many) at e))
    | inl one ↦
        factor_some (length ys) channels
          (rw (to_mono_lem zs ys channels h (rw (other, one) at e)).1 some_zs)
  ]
]

-- `m` frames of `c` channels are the samples of `n` frames of `t` channels.
same_time :
    (m n c t w v from_bytes to_bytes : ℕ)
    → from_bytes ≡ n * w
    → m * c ≡ n * t
    → to_bytes ≡ m * v
    → to_bytes * (c * w) ≡ from_bytes * (t * v)
same_time m n c t w v from_bytes to_bytes h k l =
    let frames : m * c * (w * v) ≡ n * t * (w * v) = ap (λ x. x * (w * v)) k in
    rw (h, l) (omega (arith, frames))

module _ (np : Resampler) (good : IsResampler np) where
  resample_lem :
      (zs ys : List ℤ) (from_rate to_rate : ℕ)
      → All IsInt16 zs
      → resample np zs from_rate to_rate ≡ ok ys
      → All IsInt16 ys × (from_rate ≡ to_rate → ys ≡ zs) × (0 < length zs → 0 < length ys)
  unfolding resample
  resample_lem zs ys from_rate to_rate h e =
      elim (Bool-cases (from_rate == to_rate || length zs == 0)) [
        | inl kept ↦ rw (sym (ok_injective (rw kept at e))) (h, λ _. refl, λ some_zs. some_zs)
        | inr changed ↦ elim (Bool-cases (from_rate == 0)) [
          | inl no_rate ↦ absurd (raise_ok (rw (changed, no_rate) at e))
          | inr rate ↦
              let n = max 1 (np.rounded_length (length zs) from_rate to_rate) in
              rw (sym (ok_injective (rw (changed, rate) at e))) (
                good.range n zs h,
                λ same. absurd (ground (arith, same, changed)),
                λ _. rw (good.count n zs) (omega arith),
              )
        ]
      ]

  -- The four passes.
  converted :
      (target : AudioFormatSpec) (c : AudioChunk) (zs ys xs : List ℤ) (bs : List ℕ)
      → All IsByte c.bytes
      → to_int16 c.bytes c.sample_width ≡ ok zs
      → remix zs c.channels target.channels ≡ ok ys
      → resample np ys c.sample_rate target.sample_rate ≡ ok xs
      → from_int16 xs target.sample_width ≡ ok bs
      → All IsByte bs
        × (0 < length c.bytes → 0 < length bs)
        × (c.sample_rate ≡ target.sample_rate
            → length bs * (c.channels * c.sample_width)
              ≡ length c.bytes * (target.channels * target.sample_width))
  converted target c zs ys xs bs h read mixed sampled wrote =
      let (z_range, z_count) = to_int16_lem c.bytes c.sample_width zs h read in
      let (y_range, y_count) = remix_lem zs ys c.channels target.channels z_range mixed in
      let (_, x_same, x_some) =
        resample_lem ys xs c.sample_rate target.sample_rate y_range sampled in
      let (b_range, b_count) = from_int16_lem xs target.sample_width bs wrote in
      (
        b_range,
        λ some_bytes.
            let some_zs = factor_some (length zs) c.sample_width (rw z_count at some_bytes) in
            let some_xs =
              x_some (remix_some zs ys c.channels target.channels z_range mixed some_zs) in
            rw b_count (
              times_some (length xs) target.sample_width some_xs
                (from_int16_width xs target.sample_width bs wrote)),
        λ rate.
            same_time (length ys) (length zs) c.channels target.channels c.sample_width
              target.sample_width (length c.bytes) (length bs) z_count y_count
              (b_count ∙ ap (λ t. length t * target.sample_width) (x_same rate)),
      )

  -- When a chunk whose data are bytes is converted, and the interpolation of numpy gives as
  -- many 16-bit samples as it is asked for, every number that comes out is a byte, so no value
  -- leaves its width; a chunk with audio does not become empty; and if the sample rate stays,
  -- so does the duration, which is the length in bytes over channels times sample width.
  pub convert_chunk_lem :
      (target : AudioFormatSpec) (c d : AudioChunk)
      → All IsByte c.bytes
      → convert_chunk np c target ≡ ok d
      → All IsByte d.bytes
        × (0 < length c.bytes → 0 < length d.bytes)
        × (c.sample_rate ≡ target.sample_rate
            → length d.bytes * (c.channels * c.sample_width)
              ≡ length c.bytes * (target.channels * target.sample_width))
  unfolding convert_chunk
  convert_chunk_lem target c d h e = elim (Bool-cases (same_format c target)) [
    | inl same ↦
        let (rate, channels, width) = same_format_sound target c same in
        rw (sym (ok_injective (rw same at e)))
          (h, λ some_bytes. some_bytes, λ _. rw (channels, width) refl)
    | inr other ↦
        let (zs, read, h1) = bind_returns (to_int16 c.bytes c.sample_width) _ (rw other at e) in
        let (ys, mixed, h2) = bind_returns (remix zs c.channels target.channels) _ h1 in
        let (xs, sampled, h3) =
          bind_returns (resample np ys c.sample_rate target.sample_rate) _ h2 in
        let (bs, wrote, h4) = bind_returns (from_int16 xs target.sample_width) _ h3 in
        rw (sym (ok_injective h4)) (converted target c zs ys xs bs h read mixed sampled wrote)
  ]
