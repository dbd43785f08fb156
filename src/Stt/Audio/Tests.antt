-- ===== src/Stt/Audio/Tests.antt =====
-- Two frames of 8-bit stereo for an engine that takes 16-bit mono.
use bibi_core.Base.{
  ℕ, zero, suc, ◌*◌, ◌/◌, ◌<◌, ◌≡◌, refl, ap, List, [], ◌∷◌, ok, arith, All, length,
}
use bibi_core.Base.Int.{ℤ, pos}
use bibi_core.Stt.Models.{AudioChunk}
use bibi_core.Stt.Samples.{to_int16, from_int16, write_int16}
use bibi_core.Stt.Samples.Laws.{IsByte, IsInt16}
use bibi_core.Stt.Audio.{
  Resampler, frame_sum, frame_means, to_mono, remix, resample, same_format, convert_chunk,
}
use bibi_core.Stt.Audio.Bounds.{IsResampler, convert_chunk_lem}
use bibi_core.Stt.Whisper.{required_format}

abbrev zeros : ℕ → List ℤ
zeros zero = []
zeros (suc n) = pos 0 ∷ zeros n

abbrev np : Resampler
np = record { rounded_length = λ n from to. n * to / from; interpolate = λ n zs. zeros n }

zeros_range : (n : ℕ) → All IsInt16 (zeros n)
zeros_range zero = tt
zeros_range (suc n) = (omega arith, zeros_range n)

length-zeros : (n : ℕ) → length (zeros n) ≡ n
length-zeros zero = refl
length-zeros (suc n) = ap suc (length-zeros n)

np-IsResampler : IsResampler np
np-IsResampler = record { range = λ n zs h. zeros_range n; count = λ n zs. length-zeros n }

abbrev stereo : AudioChunk
stereo = record {
  bytes = 128 ∷ 130 ∷ 0 ∷ 255 ∷ [];
  sample_rate = 16000;
  channels = 2;
  sample_width = 1;
}

abbrev mono : AudioChunk
mono = record {
  bytes = 0 ∷ 1 ∷ 128 ∷ 255 ∷ [];
  sample_rate = 16000;
  channels = 1;
  sample_width = 2;
}

converted : convert_chunk np stereo required_format ≡ ok mono
unfolding convert_chunk same_format to_int16 remix to_mono frame_means frame_sum resample from_int16
    write_int16
converted = refl

convert_chunk_lem_example :
    All IsByte mono.bytes
    × (0 < length stereo.bytes → 0 < length mono.bytes)
    × (stereo.sample_rate ≡ mono.sample_rate
        → length mono.bytes * (2 * 1) ≡ length stereo.bytes * (1 * 2))
convert_chunk_lem_example =
    convert_chunk_lem np np-IsResampler required_format stereo mono
      (omega arith, (omega arith, (omega arith, (omega arith, tt)))) converted
