-- ===== src/Stt/Samples/Bounds.antt =====
-- Ranges and lengths of what the two conversions read and write.

use bibi_core.Base.{
  raise_ok, ℕ, zero, suc, ◌+◌, ◌*◌, ◌/◌, ◌%◌, ◌^◌, ◌<◌, ◌≡◌, refl, sym, ap, true, ◌==◌, List, [],
  ◌∷◌, map, ok, arith, All, length, Bool-cases, inl, inr, ok_injective, Result-cases,
}
use bibi_core.Base.Int.{ℤ, pos, negsuc, sub_ℕ, scale, floor_div}
use bibi_core.Stt.Samples.{
  signed, pattern_of, read_int16, read_int32_high, to_int16, write_int16, to_byte, write_int32_high,
  from_int16,
}
use bibi_core.Stt.Samples.Laws.{IsByte, IsInt16}

-- Reading.
IsInt16-signed : (lo hi : ℕ) → IsByte lo → IsByte hi → IsInt16 (signed 32768 (lo + 256 * hi))
IsInt16-signed lo hi h l = ground arith

IsInt16-centered : (b : ℕ) → IsByte b → IsInt16 (scale (sub_ℕ b 128) 256)
IsInt16-centered b h = ground arith

IsInt16-high : (u : ℕ) → u < 2 ^ 32 → IsInt16 (floor_div (signed (2 ^ 31) u) 65536)
IsInt16-high u h = ground arith

read_int16_lem :
    (bs : List ℕ) (zs : List ℤ)
    → All IsByte bs
    → read_int16 bs ≡ ok zs
    → All IsInt16 zs × (length bs ≡ 2 * length zs)
unfolding read_int16
read_int16_lem [] zs h e = rw (sym (ok_injective e)) (tt, refl)
read_int16_lem (b ∷ []) zs h e = cc
read_int16_lem (lo ∷ hi ∷ bs) zs h e = elim (Result-cases (read_int16 bs)) [
  | inr (x, failed) ↦ absurd (cc)
  | inl (ys, found) ↦
      let (range, count) = read_int16_lem bs ys h.1.1 found in
      rw (sym (ok_injective (rw (found, read_int16) at e)))
        ((IsInt16-signed lo hi h.0 h.1.0, range), omega (arith, count))
]

read_int32_high_lem :
    (bs : List ℕ) (zs : List ℤ)
    → All IsByte bs
    → read_int32_high bs ≡ ok zs
    → All IsInt16 zs × (length bs ≡ 4 * length zs)
unfolding read_int32_high
read_int32_high_lem [] zs h e = rw (sym (ok_injective e)) (tt, refl)
read_int32_high_lem (b ∷ []) zs h e = cc
read_int32_high_lem (b ∷ c ∷ []) zs h e = cc
read_int32_high_lem (b ∷ c ∷ d ∷ []) zs h e = cc
read_int32_high_lem (b0 ∷ b1 ∷ b2 ∷ b3 ∷ bs) zs h e = elim (Result-cases (read_int32_high bs)) [
  | inr (x, failed) ↦ absurd (cc)
  | inl (ys, found) ↦
      let (range, count) = read_int32_high_lem bs ys h.1.1.1.1 found in
      let here =
        IsInt16-high (b0 + 256 * b1 + 65536 * b2 + 16777216 * b3)
          (ground (arith, h.0, h.1.0, h.1.1.0, h.1.1.1.0)) in
      rw (sym (ok_injective (rw (found, read_int32_high) at e)))
        ((here, range), omega (arith, count))
]

centered_lem :
    (bs : List ℕ)
    → All IsByte bs
    → All IsInt16 (map (λ u. scale (sub_ℕ u 128) 256) bs)
      × (length (map (λ u. scale (sub_ℕ u 128) 256) bs) ≡ length bs)
centered_lem [] h = (tt, refl)
centered_lem (b ∷ bs) h =
    let (range, count) = centered_lem bs h.1 in ((IsInt16-centered b h.0, range), ap suc count)

-- A width that was tested for.
width_of : (w v : ℕ) → (w == v) ≡ true → (m n : ℕ) → m ≡ v * n → m ≡ n * w
width_of w v same m n count =
    let here : w ≡ v = ground (arith, same) in rw here (omega (arith, count))

pub to_int16_lem :
    (bs : List ℕ) (width : ℕ) (zs : List ℤ)
    → All IsByte bs
    → to_int16 bs width ≡ ok zs
    → All IsInt16 zs × (length bs ≡ length zs * width)
unfolding to_int16
to_int16_lem bs width zs h e = elim (Bool-cases (width == 2)) [
  | inl two ↦
      let (range, count) = read_int16_lem bs zs h (rw two at e) in
      (range, width_of width 2 two (length bs) (length zs) count)
  | inr not_two ↦ elim (Bool-cases (width == 1)) [
    | inl one ↦
        let (range, count) = centered_lem bs h in
        let same = ok_injective (rw (not_two, one) at e) in
        rw (sym same) (range, width_of width 1 one (length bs) _ (omega (arith, count)))
    | inr not_one ↦ elim (Bool-cases (width == 4)) [
      | inl four ↦
          let (range, count) = read_int32_high_lem bs zs h (rw (not_two, not_one, four) at e) in
          (range, width_of width 4 four (length bs) (length zs) count)
      | inr not_four ↦ absurd (raise_ok (rw (not_two, not_one, not_four) at e))
    ]
  ]
]

-- Writing.
pattern-IsByte : (z : ℤ) → IsByte (pattern_of 65536 z % 256) × IsByte (pattern_of 65536 z / 256)
pattern-IsByte (pos n) = (omega arith, omega arith)
pattern-IsByte (negsuc n) = (omega arith, omega arith)

pattern_range : (z : ℤ) → pattern_of (2 ^ 32) z < 2 ^ 32
pattern_range (pos n) = omega arith
pattern_range (negsuc n) = omega arith

write_int32_high_lem :
    (zs : List ℤ)
    → All IsByte (write_int32_high zs) × (length (write_int32_high zs) ≡ 4 * length zs)
unfolding write_int32_high
write_int32_high_lem [] = (tt, refl)
write_int32_high_lem (z ∷ zs) =
    let (range, count) = write_int32_high_lem zs in
    let most = pattern_range (scale z 65536) in
    (
      (omega arith, (omega arith, (omega arith, (omega (arith, most), range)))),
      omega (arith, count),
    )

write_int16_lem :
    (zs : List ℤ) → All IsByte (write_int16 zs) × (length (write_int16 zs) ≡ 2 * length zs)
unfolding write_int16
write_int16_lem [] = (tt, refl)
write_int16_lem (z ∷ zs) =
    let (range, count) = write_int16_lem zs in
    let (low, high) = pattern-IsByte z in ((low, (high, range)), omega (arith, count))

to_byte-IsByte : (z : ℤ) → IsByte (to_byte z)
unfolding to_byte
to_byte-IsByte (pos n) = ground arith
to_byte-IsByte (negsuc n) = ground arith

map-to_byte : (zs : List ℤ) → All IsByte (map to_byte zs) × (length (map to_byte zs) ≡ length zs)
map-to_byte [] = (tt, refl)
map-to_byte (z ∷ zs) =
    let (range, count) = map-to_byte zs in ((to_byte-IsByte z, range), ap suc count)

pub from_int16_lem :
    (zs : List ℤ) (width : ℕ) (bs : List ℕ)
    → from_int16 zs width ≡ ok bs
    → All IsByte bs × (length bs ≡ length zs * width)
unfolding from_int16
from_int16_lem zs width bs e = elim (Bool-cases (width == 2)) [
  | inl two ↦
      let (range, count) = write_int16_lem zs in
      rw (sym (ok_injective (rw two at e))) (range, width_of width 2 two _ (length zs) count)
  | inr not_two ↦ elim (Bool-cases (width == 1)) [
    | inl one ↦
        let (range, count) = map-to_byte zs in
        rw (sym (ok_injective (rw (not_two, one) at e)))
          (range, width_of width 1 one _ (length zs) (omega (arith, count)))
    | inr not_one ↦ elim (Bool-cases (width == 4)) [
      | inl four ↦
          let (range, count) = write_int32_high_lem zs in
          rw (sym (ok_injective (rw (not_two, not_one, four) at e)))
            (range, width_of width 4 four _ (length zs) count)
      | inr not_four ↦ absurd (raise_ok (rw (not_two, not_one, not_four) at e))
    ]
  ]
]

-- No sample takes no bytes.
pub from_int16_width :
    (zs : List ℤ) (width : ℕ) (bs : List ℕ) → from_int16 zs width ≡ ok bs → 0 < width
unfolding from_int16
from_int16_width zs zero bs e = absurd (raise_ok e)
from_int16_width zs (suc w) bs e = omega arith
