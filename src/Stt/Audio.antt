-- ===== src/Stt/Audio.antt =====
-- stt/utils/audio.py. A duration is the fraction of bytes by bytes per second. What numpy computes in
-- floating point is a parameter: the rounded length and the linear interpolation of `_resample`. The
-- mean of a frame is exact in a float64, so it is the sum divided and cut off.
pub mod Laws
pub mod Bounds
mod Tests
use bibi_core.Base.{
  ℕ, zero, suc, ◌+◌, ◌*◌, ◌/◌, ◌%◌, max, Bool, true, false, not, ◌&&◌, ◌||◌, Option, none, some,
  List, [], ◌∷◌, ◌++◌, map, leb, ◌==◌, if◌then◌else◌, ok, raise, codes, length, ◌>>=◌,
}
use bibi_core.Base.Decimal.{decimal}
use bibi_core.Base.Int.{ℤ, pos, trunc_div, ◌+ℤ◌}
use bibi_core.Stt.Models.{
  AudioChunk, AudioFormatSpec, SttError, invalid_audio_format, unexpected, Try,
}
use bibi_core.Stt.Samples.{to_int16, from_int16}

pub record Duration : Type 0 where
  pub total_bytes : ℕ
  pub per_second : ℕ

unfoldable pub total_bytes : List AudioChunk → ℕ
total_bytes [] = 0
total_bytes (c ∷ cs) = length c.bytes + total_bytes cs

-- `chunks[0].sample_rate * chunks[0].channels * chunks[0].sample_width`
unfoldable pub bytes_per_second : AudioChunk → ℕ
bytes_per_second c = c.sample_rate * c.channels * c.sample_width

unfoldable pub calculate_duration : List AudioChunk → Try Duration
unfolding total_bytes bytes_per_second
calculate_duration [] = ok (record { total_bytes = 0; per_second = 1 })
calculate_duration (c ∷ cs) =
    if bytes_per_second c == 0
    then raise (unexpected (codes "division by zero"))
    else ok (record { total_bytes = total_bytes (c ∷ cs); per_second = bytes_per_second c })

-- `duration >= seconds`
unfoldable pub at_least : Duration → ℕ → Bool
at_least d seconds = leb (seconds * d.per_second) d.total_bytes

-- What `_resample` leaves to numpy's floating point.
pub record Resampler : Type 0 where
  -- `round(len(samples) / from_rate * to_rate)`
  pub rounded_length : ℕ → ℕ → ℕ → ℕ
  -- `np.interp` at `new_len` times, cut to int16
  pub interpolate : ℕ → List ℤ → List ℤ

-- `samples.reshape(-1, channels).mean(axis=1).astype(np.int16)`, over `frames` frames
unfoldable pub frame_sum : ℕ → List ℤ → ℤ × List ℤ
frame_sum zero zs = (pos 0, zs)
frame_sum (suc n) [] = (pos 0, [])
frame_sum (suc n) (z ∷ zs) = let (total, rest) = frame_sum n zs in (z +ℤ total, rest)

unfoldable pub frame_means : ℕ → ℕ → List ℤ → List ℤ
unfolding frame_sum
frame_means zero channels zs = []
frame_means (suc frames) channels zs =
    let (total, rest) = frame_sum channels zs in
    trunc_div total channels ∷ frame_means frames channels rest

unfoldable pub to_mono : List ℤ → ℕ → Try (List ℤ)
unfolding frame_means
to_mono samples channels =
    if channels == 0 || not (length samples % channels == 0)
    then raise (unexpected (codes "cannot reshape array"))
    else ok (frame_means (length samples / channels) channels samples)

unfoldable pub remix : List ℤ → ℕ → ℕ → Try (List ℤ)
unfolding to_mono
remix samples channels target =
    if channels == target
    then ok samples
    else if target == 1
    then to_mono samples channels
    else raise (
        invalid_audio_format (
          codes "Cannot convert "
          ++ (decimal channels
              ++ (codes "-channel audio to " ++ (decimal target ++ codes " channels")))))

unfoldable pub same_format : AudioChunk → AudioFormatSpec → Bool
same_format c target =
    c.sample_rate == target.sample_rate
    && c.channels == target.channels
    && c.sample_width == target.sample_width

module _ (np : Resampler) where
  unfoldable pub resample : List ℤ → ℕ → ℕ → Try (List ℤ)
  resample samples from_rate to_rate =
      if from_rate == to_rate || length samples == 0
      then ok samples
      else if from_rate == 0
      then raise (unexpected (codes "division by zero"))
      else ok
          (np.interpolate (max 1 (np.rounded_length (length samples) from_rate to_rate)) samples)

  unfoldable pub convert_chunk : AudioChunk → AudioFormatSpec → Try AudioChunk
  unfolding same_format remix resample
  convert_chunk c target = if same_format c target then ok c else (do
    samples ← to_int16 c.bytes c.sample_width
    mixed ← remix samples c.channels target.channels
    resampled ← resample mixed c.sample_rate target.sample_rate
    bytes ← from_int16 resampled target.sample_width
    ok (record {
      bytes = bytes;
      sample_rate = target.sample_rate;
      channels = target.channels;
      sample_width = target.sample_width;
    }))

  -- The whole list of what the generator yields, or the exception that stops it.
  unfoldable pub convert_chunks : List AudioChunk → Option AudioFormatSpec → Try (List AudioChunk)
  unfolding convert_chunk
  convert_chunks chunks none = ok chunks
  convert_chunks [] (some target) = ok []
  convert_chunks (c ∷ cs) (some target) = do
    first ← convert_chunk c target
    rest ← convert_chunks cs (some target)
    ok (first ∷ rest)
