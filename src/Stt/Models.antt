-- ===== src/Stt/Models.antt =====
-- stt/engines/models.py and stt/exceptions.py. Rates, channel counts and widths are natural numbers;
-- the wire format has int32, of which the negative ones are left out. A score is a float, of an
-- abstract type.
use bibi_core.Base.{ℕ, Option, List, [], ◌∷◌, ◌++◌, Text, codes, Result}

pub record AudioChunk : Type 0 where
  -- `data`
  pub bytes : List ℕ
  pub sample_rate : ℕ
  pub channels : ℕ
  pub sample_width : ℕ

pub record AudioFormatSpec : Type 0 where
  pub sample_rate : ℕ
  pub channels : ℕ
  pub sample_width : ℕ

pub record TranscriptSegment (F : Type 0) : Type 0 where
  pub start_ms : ℕ
  pub end_ms : ℕ
  pub text : Text
  pub score : Option F

pub record Transcript (F : Type 0) : Type 0 where
  pub segments : List (TranscriptSegment F)
  pub lang : Option Text

-- `"".join(seg.text for seg in self.segments)`
unfoldable pub join_text : {F : Type 0} → List (TranscriptSegment F) → Text
join_text [] = []
join_text (s ∷ ss) = s.text ++ join_text ss

-- The exceptions that reach a caller: the two of the service, and any other with its `str`.
pub data SttError : Type 0 where
  model_not_found : Text → SttError
  invalid_audio_format : Text → SttError
  unexpected : Text → SttError

-- `e.code`, and `internal_error` for what is no STTServiceError
unfoldable pub error_code : SttError → Text
error_code (model_not_found m) = codes "model_not_found"
error_code (invalid_audio_format t) = codes "invalid_audio_format"
error_code (unexpected t) = codes "internal_error"

-- `str(e)`
unfoldable pub error_message : SttError → Text
error_message (model_not_found m) = codes "Unknown model '" ++ m ++ codes "'"
error_message (invalid_audio_format t) = t
error_message (unexpected t) = t

abbrev pub Try : Type 0 → Type 0
Try A = Result SttError A
