-- ===== src/Stt/Whisper.antt =====
-- stt/engines/whispercpp_engine.py and stt/engines/mock_engine.py. The native model is a parameter; an
-- audio sample in [-1, 1) is the integer that the code divides by 32768.
pub mod Laws
pub mod Lock
use bibi_core.Base.{
  ℕ, ◌*◌, Bool, true, false, not, ◌&&◌, ◌||◌, Option, none, some, List, [], ◌∷◌, ◌++◌, map, ◌==◌,
  if◌then◌else◌, ok, raise, Text, codes, ◌>>=◌, Result, ◌/◌,
}
use bibi_core.Base.Int.{ℤ}
use bibi_core.Stt.Models.{
  AudioChunk, AudioFormatSpec, TranscriptSegment, Transcript, SttError, model_not_found,
  invalid_audio_format, Try,
}
use bibi_core.Stt.Samples.{read_int16}
use bibi_core.Stt.Audio.{Duration, calculate_duration}

abbrev pub required_format : AudioFormatSpec
required_format = record { sample_rate = 16000; channels = 1; sample_width = 2 }

-- `is_file` is the file system's answer for `directory / f"{name}.bin"`, given as the file name.
unfoldable pub resolve_path : (Text → Bool) → Text → Try Text
resolve_path is_file name =
    if is_file (name ++ codes ".bin")
    then ok (name ++ codes ".bin")
    else raise (model_not_found name)

-- `_validate_chunk`, against the format of the first chunk
unfoldable pub validate_chunk : AudioFormatSpec → AudioChunk → Try (Unit {0})
validate_chunk first c =
    if not (c.sample_rate == first.sample_rate)
    then raise (invalid_audio_format (codes "All audio chunks must have the same sample rate"))
    else if not (c.channels == first.channels)
    then raise (invalid_audio_format (codes "All audio chunks must have the same channel count"))
    else if not (c.sample_width == first.sample_width)
    then raise (invalid_audio_format (codes "All audio chunks must have the same sample width"))
    else if not (c.sample_rate == 16000)
    then raise (invalid_audio_format (codes "Whisper requires 16000Hz audio"))
    else if not (c.channels == 1)
    then raise (invalid_audio_format (codes "Whisper requires mono audio"))
    else if not (c.sample_width == 2)
    then raise (invalid_audio_format (codes "Whisper requires 16-bit PCM"))
    else ok tt

abbrev pub format_of : AudioChunk → AudioFormatSpec
format_of c = record {
  sample_rate = c.sample_rate;
  channels = c.channels;
  sample_width = c.sample_width;
}

-- `sample_rate`, `channels` and `sample_width` of the loop: None before the first chunk
abbrev pub format_or : Option AudioFormatSpec → AudioChunk → AudioFormatSpec
format_or none c = format_of c
format_or (some f) c = f

-- The loop of `_convert_audio`: the bytes of all chunks.
unfoldable pub collect : Option AudioFormatSpec → List AudioChunk → Try (List ℕ)
unfolding validate_chunk
collect first [] = ok []
collect first (c ∷ cs) = do
  _ ← validate_chunk (format_or first c) c
  rest ← collect (some (format_or first c)) cs
  ok (c.bytes ++ rest)

unfoldable pub pcm_to_samples : List ℕ → Try (List ℤ)
unfolding read_int16
pcm_to_samples [] = raise (invalid_audio_format (codes "Audio source produced no data"))
pcm_to_samples (b ∷ pcm) = read_int16 (b ∷ pcm)

unfoldable pub convert_audio : List AudioChunk → Try (List ℤ)
unfolding collect pcm_to_samples
convert_audio source = collect none source >>= pcm_to_samples

-- A segment of the native model, in hundredths of a second.
pub record NativeSegment (F : Type 0) : Type 0 where
  pub t0 : ℕ
  pub t1 : ℕ
  pub text : Text
  pub probability : Option F

unfoldable pub to_segment : {F : Type 0} → NativeSegment F → TranscriptSegment F
to_segment s = record {
  start_ms = s.t0 * 10;
  end_ms = s.t1 * 10;
  text = s.text;
  score = s.probability;
}

unfoldable pub transcribe :
    {F : Type 0} → (List ℤ → Try (List (NativeSegment F))) → List AudioChunk → Try (Transcript F)
unfolding convert_audio to_segment
transcribe model source = do
  samples ← convert_audio source
  segments ← model samples
  ok (record { segments = map to_segment segments; lang = none })

-- MockSTTEngine.transcribe; `milliseconds` is `int(duration * 1000)` in floating point, `shown` is the text with the duration and `one` the score 1.0.
unfoldable pub mock_transcribe :
    {F : Type 0} → (Duration → ℕ) → (Duration → Text) → F → List AudioChunk → Try (Transcript F)
unfolding calculate_duration
mock_transcribe milliseconds shown one chunks = do
  d ← calculate_duration chunks
  ok (record {
    segments =
        record { start_ms = 0; end_ms = milliseconds d; text = shown d; score = some one } ∷ [];
    lang = none;
  })
