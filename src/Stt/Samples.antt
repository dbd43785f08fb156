-- ===== src/Stt/Samples.antt =====
-- PCM samples of stt/utils/audio.py: `_to_int16` and `_from_int16`, on a little-endian machine. A
-- sample is an integer, a byte a number below 256; numpy's arrays are lists.
pub mod Laws
pub mod Bounds
use bibi_core.Base.{
  ℕ, ◌+◌, ◌-◌, ◌*◌, ◌/◌, ◌%◌, ◌^◌, Bool, true, false, List, [], ◌∷◌, map, ltb, leb, ◌==◌,
  if◌then◌else◌, ok, raise, Text, codes, ◌++◌,
}
use bibi_core.Base.Decimal.{decimal}
use bibi_core.Base.Int.{ℤ, pos, negsuc, sub_ℕ, scale, floor_div}
use bibi_core.Stt.Models.{SttError, invalid_audio_format, unexpected, Try}

-- Two's complement: the value of a w-bit pattern, and the pattern of a value.
abbrev pub signed : ℕ → ℕ → ℤ
signed half u = if ltb u half then pos u else negsuc (half + half - 1 - u)

abbrev pub pattern_of : ℕ → ℤ → ℕ
pattern_of modulus (pos n) = n % modulus
pattern_of modulus (negsuc n) = modulus - 1 - n % modulus

-- `np.frombuffer(data, dtype=np.int16)`, which wants whole items
unfoldable pub read_int16 : List ℕ → Try (List ℤ)
read_int16 [] = ok []
read_int16 (b ∷ []) = raise (unexpected (codes "buffer size must be a multiple of element size"))
read_int16 (lo ∷ hi ∷ rest) = elim (read_int16 rest) [
  | ok zs ↦ ok (signed 32768 (lo + 256 * hi) ∷ zs)
  | raise x ↦ raise x
]

-- `(np.frombuffer(data, dtype=np.int32) >> 16).astype(np.int16)`
unfoldable pub read_int32_high : List ℕ → Try (List ℤ)
read_int32_high [] = ok []
read_int32_high (b0 ∷ b1 ∷ b2 ∷ b3 ∷ rest) = elim (read_int32_high rest) [
  | ok zs ↦ ok (floor_div (signed (2 ^ 31) (b0 + 256 * b1 + 65536 * b2 + 16777216 * b3)) 65536 ∷ zs)
  | raise x ↦ raise x
]
read_int32_high _ = raise (unexpected (codes "buffer size must be a multiple of element size"))

unsupported : {A : Type 0} → ℕ → Try A
unsupported width =
    raise (
      invalid_audio_format
        (codes "Unsupported sample width: " ++ (decimal width ++ codes " bytes")))

unfoldable pub to_int16 : List ℕ → ℕ → Try (List ℤ)
unfolding read_int16 read_int32_high unsupported
to_int16 bytes width =
    if width == 2
    then read_int16 bytes
    else if width == 1
    then ok (map (λ u. scale (sub_ℕ u 128) 256) bytes)
    else if width == 4
    then read_int32_high bytes
    else unsupported width

-- `samples.astype(np.int16).tobytes()`
unfoldable pub write_int16 : List ℤ → List ℕ
write_int16 [] = []
write_int16 (z ∷ zs) = (pattern_of 65536 z % 256) ∷ (pattern_of 65536 z / 256) ∷ write_int16 zs

-- `.clip(0, 255)`
abbrev pub clip_byte : ℤ → ℕ
clip_byte (pos n) = if leb n 255 then n else 255
clip_byte (negsuc n) = 0

-- `(samples.astype(np.int32) // 256 + 128).clip(0, 255)`
unfoldable pub to_byte : ℤ → ℕ
to_byte (pos n) = clip_byte (pos (n / 256 + 128))
to_byte (negsuc n) = clip_byte (sub_ℕ 128 (n / 256 + 1))

-- `(samples.astype(np.int32) << 16).tobytes()`
unfoldable pub write_int32_high : List ℤ → List ℕ
write_int32_high [] = []
write_int32_high (z ∷ zs) =
    let w = pattern_of (2 ^ 32) (scale z 65536) in
    (w % 256) ∷ (w / 256 % 256) ∷ (w / 65536 % 256) ∷ (w / 16777216) ∷ write_int32_high zs

unfoldable pub from_int16 : List ℤ → ℕ → Try (List ℕ)
unfolding write_int16 to_byte write_int32_high unsupported
from_int16 samples width =
    if width == 2
    then ok (write_int16 samples)
    else if width == 1
    then ok (map to_byte samples)
    else if width == 4
    then ok (write_int32_high samples)
    else unsupported width
