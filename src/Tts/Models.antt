-- ===== src/Tts/Models.antt =====
-- tts/engines/models.py, tts/exceptions.py and tts/output/wav_encoder.py. A generator of audio is the
-- list of its chunks with the exception that ends it, if one does.
use bibi_core.Base.{
  ℕ, zero, suc, ◌*◌, ◌/◌, max, length, Option, none, some, List, [], ◌∷◌, ◌++◌, Text, codes, Result,
  ok, raise,
}

pub record AudioChunk : Type 0 where
  -- `data`
  pub bytes : List ℕ
  pub sample_rate : ℕ
  pub channels : ℕ
  pub sample_width : ℕ

-- The exception of the service, Python's ValueError and TypeError, and any other, each with its `str`.
pub data TtsError : Type 0 where
  voice_not_found : Text → TtsError
  value_error : Text → TtsError
  type_error : Text → TtsError
  unexpected : Text → TtsError

unfoldable pub error_message : TtsError → Text
error_message (voice_not_found t) = t
error_message (value_error t) = t
error_message (type_error t) = t
error_message (unexpected t) = t

abbrev pub Try : Type 0 → Type 0
Try A = Result TtsError A

abbrev pub Stream : Type 0
Stream = List AudioChunk × Option TtsError

-- What `wave` writes: its parameters and the frames.
pub record Wav : Type 0 where
  pub channels : ℕ
  pub sample_width : ℕ
  pub framerate : ℕ
  pub frames : List ℕ

unfoldable pub join_bytes : List AudioChunk → List ℕ
join_bytes [] = []
join_bytes (c ∷ cs) = c.bytes ++ join_bytes cs

-- `for chunk in chunks: wav.writeframes(chunk.data)`, after the frames of the first chunk
unfoldable pub write_frames : AudioChunk → List AudioChunk → Option TtsError → Try Wav
unfolding join_bytes
write_frames first chunks (some x) = raise x
write_frames first chunks none = ok (record {
  channels = first.channels;
  sample_width = first.sample_width;
  framerate = first.sample_rate;
  frames = first.bytes ++ join_bytes chunks;
})

-- `WavEncoder.encode`; `refused` is the `wave.Error` for parameters that `wave` does not take.
unfoldable pub encode : (AudioChunk → Option Text) → Stream → Try Wav
unfolding write_frames
encode refused ([], none) = raise (value_error (codes "Synthesis produced no audio"))
encode refused ([], some x) = raise x
encode refused (c ∷ cs, x) = elim (refused c) [
  | some t ↦ raise (unexpected t)
  | none ↦ write_frames c cs x
]

-- MockEngine.stream: `n` samples of silence, where `n` is `max(_SAMPLE_RATE // 10, len(text) * 200)`
unfoldable pub silence : ℕ → List ℕ
silence zero = []
silence (suc n) = 0 ∷ 0 ∷ silence n

unfoldable pub mock_stream : Text → Stream
unfolding silence
mock_stream text = (
  record {
    bytes = silence (max (22050 / 10) (length text * 200));
    sample_rate = 22050;
    channels = 1;
    sample_width = 2;
  }
      ∷ [],
  none,
)
