-- ===== src/Stt/Samples/Laws.antt =====
-- The two conversions, one after the other.
use bibi_core.Base.{
  ℕ, ◌+◌, ◌*◌, ◌/◌, ◌%◌, ◌^◌, ◌<◌, ◌≡◌, refl, ap, List, [], ◌∷◌, map, ok, arith, All, ◌>>=◌,
}
use bibi_core.Base.Int.{ℤ, pos, negsuc, sub_ℕ, scale, floor_div}
use bibi_core.Stt.Samples.{
  signed, pattern_of, read_int16, read_int32_high, to_int16, write_int16, to_byte, write_int32_high,
  from_int16,
}

abbrev pub IsByte : ℕ → Type 0
IsByte b = b < 256

-- -32768 to 32767
abbrev pub IsInt16 : ℤ → Type 0
IsInt16 (pos n) = n < 32768
IsInt16 (negsuc n) = n < 32768

byte_back : (u : ℕ) → u < 256 → to_byte (scale (sub_ℕ u 128) 256) ≡ u
unfolding to_byte
byte_back u h = ground arith

bytes_back :
    (bs : List ℕ) → All IsByte bs → map to_byte (map (λ u. scale (sub_ℕ u 128) 256) bs) ≡ bs
bytes_back [] h = refl
bytes_back (b ∷ bs) h = rw (byte_back b h.0, bytes_back bs h.1)

int16_back :
    (z : ℤ)
    → IsInt16 z
    → signed 32768 (pattern_of 65536 z % 256 + 256 * (pattern_of 65536 z / 256)) ≡ z
int16_back (pos n) h = ground arith
int16_back (negsuc n) h = ground arith

int16s_back : (zs : List ℤ) → All IsInt16 zs → read_int16 (write_int16 zs) ≡ ok zs
unfolding read_int16 write_int16
int16s_back [] h = refl
int16s_back (z ∷ zs) h = rw (int16s_back zs h.1, int16_back z h.0)

int32_back :
    (z : ℤ)
    → IsInt16 z
    → let w = pattern_of (2 ^ 32) (scale z 65536) in
      floor_div
        (signed
          (2 ^ 31)
          (w % 256 + 256 * (w / 256 % 256) + 65536 * (w / 65536 % 256) + 16777216 * (w / 16777216)))
        65536
      ≡ z
int32_back (pos n) h = ground arith
int32_back (negsuc n) h = ground arith

int32s_back : (zs : List ℤ) → All IsInt16 zs → read_int32_high (write_int32_high zs) ≡ ok zs
unfolding read_int32_high write_int32_high
int32s_back [] h = refl
int32s_back (z ∷ zs) h = rw (int32s_back zs h.1, int32_back z h.0)

-- 16-bit samples written in 16 or in 32 bits read back as they were, and 8-bit audio survives
-- the way through 16 bits.
pub to_int16-from_int16 :
    (zs : List ℤ) (bs : List ℕ)
    → All IsInt16 zs
    → All IsByte bs
    → ((from_int16 zs 2 >>= λ out. to_int16 out 2) ≡ ok zs)
      × ((from_int16 zs 4 >>= λ out. to_int16 out 4) ≡ ok zs)
      × ((to_int16 bs 1 >>= λ out. from_int16 out 1) ≡ ok bs)
unfolding to_int16 from_int16
to_int16-from_int16 zs bs h k = (int16s_back zs h, int32s_back zs h, ap ok (bytes_back bs k))
