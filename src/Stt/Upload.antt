-- ===== src/Stt/Upload.antt =====
-- POST `/transcribe` of stt/api/routes.py, with the WAV source of stt/engines/audio_sources.py and the
-- response of stt/api/models.py. `wave.open` is a parameter; the temporary file is not modelled.
pub mod Laws
mod Tests
use bibi_core.Base.{
  ℕ, zero, suc, ◌*◌, Bool, true, false, not, ◌||◌, Option, none, some, List, [], ◌∷◌, ◌++◌, map,
  if◌then◌else◌, ok, raise, Text, codes, text_eq, Result, ◌>>=◌, length,
}
use bibi_core.Manager.{Manager, acquire_engine}
use bibi_core.Stt.Models.{
  AudioChunk, AudioFormatSpec, TranscriptSegment, Transcript, SttError, model_not_found,
  invalid_audio_format, unexpected, error_code, error_message, Try,
}
use bibi_core.Stt.Audio.{Resampler}
use bibi_core.Stt.Servicer.{prepare_and_transcribe}

-- What `wave.open` finds.
pub record WavFile : Type 0 where
  pub sample_rate : ℕ
  pub channels : ℕ
  pub sample_width : ℕ
  pub frames : List ℕ

-- `readframes`: so many bytes, or what is left, and the rest
unfoldable pub take_bytes : ℕ → List ℕ → List ℕ
take_bytes zero bs = []
take_bytes (suc n) [] = []
take_bytes (suc n) (b ∷ bs) = b ∷ take_bytes n bs

unfoldable pub drop_bytes : ℕ → List ℕ → List ℕ
drop_bytes zero bs = bs
drop_bytes (suc n) [] = []
drop_bytes (suc n) (b ∷ bs) = drop_bytes n bs

-- The `while` loop, with the bytes that are left; each round takes one at least.
unfoldable pub read_blocks : ℕ → ℕ → List ℕ → List (List ℕ)
unfolding take_bytes drop_bytes
read_blocks zero size bs = []
read_blocks (suc fuel) size bs = elim (take_bytes size bs) [
  | [] ↦ []
  | b ∷ block ↦ (b ∷ block) ∷ read_blocks fuel size (drop_bytes size bs)
]

unfoldable pub wav_chunk : WavFile → List ℕ → AudioChunk
wav_chunk w block = record {
  bytes = block;
  sample_rate = w.sample_rate;
  channels = w.channels;
  sample_width = w.sample_width;
}

-- `WavFileAudioSource.__iter__`: blocks of 4096 frames
unfoldable pub wav_chunks : WavFile → List AudioChunk
unfolding read_blocks wav_chunk
wav_chunks w =
    map (wav_chunk w)
      (read_blocks (suc (length w.frames)) (4096 * (w.channels * w.sample_width)) w.frames)

-- `SegmentResponse`
pub record SegmentResponse (F : Type 0) : Type 0 where
  pub start_ms : ℕ
  pub end_ms : ℕ
  pub score : Option F
  pub text : Text

-- `clean_nan` of a score
unfoldable pub clean_nan : {F : Type 0} → (F → Bool) → Option F → Option F
clean_nan is_nan none = none
clean_nan is_nan (some x) = if is_nan x then none else some x

unfoldable pub segment_response :
    {F : Type 0} → (F → Bool) → TranscriptSegment F → SegmentResponse F
unfolding clean_nan
segment_response is_nan s = record {
  start_ms = s.start_ms;
  end_ms = s.end_ms;
  score = clean_nan is_nan s.score;
  text = s.text;
}

unfoldable pub transcript_to_response :
    {F : Type 0} → (F → Bool) → Transcript F → List (SegmentResponse F)
unfolding segment_response
transcript_to_response is_nan t = map (segment_response is_nan) t.segments

-- An HTTPException with its status code and detail, an exception that the code lets through, or the
-- data of a body.
pub data Response (F : Type 0) : Type 0 where
  http_error : ℕ → Text → Text → Response F
  failed : SttError → Response F
  success : List (SegmentResponse F) → Response F

unfoldable pub responded : {F : Type 0} → (F → Bool) → Try (Transcript F) → Response F
unfolding transcript_to_response error_message
responded is_nan (ok t) = success (transcript_to_response is_nan t)
responded is_nan (raise (model_not_found name)) =
    http_error 404 (codes "model_not_found") (error_message (model_not_found name))
responded is_nan (raise (invalid_audio_format t)) =
    http_error 400 (codes "invalid_audio_format") (error_message (invalid_audio_format t))
responded is_nan (raise (unexpected t)) = failed (unexpected t)

-- `file.content_type not in {"audio/wav", "audio/x-wav"}`
unfoldable pub is_wav_type : Text → Bool
unfolding text_eq
is_wav_type t = text_eq t (codes "audio/wav") || text_eq t (codes "audio/x-wav")

module _ {E F : Type 0} (np : Resampler) (required : Option AudioFormatSpec)
    (transcribe : E → List AudioChunk → Try (Transcript F)) (load : Text → Try E)
    (open_wav : List ℕ → Try WavFile) (is_nan : F → Bool) where
  -- `_transcribe`, inside `acquire_engine`: the file is opened when the engine asks for audio.
  unfoldable pub transcribe_file : E → List ℕ → Try (Transcript F)
  unfolding wav_chunks prepare_and_transcribe
  transcribe_file e content =
      open_wav content >>= λ w. prepare_and_transcribe np required transcribe e (wav_chunks w)

  unfoldable pub upload : Manager E → Text → Option Text → List ℕ → Manager E × Response F
  unfolding is_wav_type transcribe_file responded acquire_engine
  upload m content_type model content =
      let (m', result) =
        acquire_engine model_not_found (unexpected (codes "KeyError")) load
          (λ held e. (held, transcribe_file e content)) m model in
      if is_wav_type content_type
      then (m', responded is_nan result)
      else (m, http_error 400 [] (codes "Only wav files are supported"))
