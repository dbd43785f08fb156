-- ===== src/Llm/Models.antt =====
-- llm/exceptions.py and the messages of llm/api/models.py.
use bibi_core.Base.{Text, codes, List, ◌++◌, Option, Result}

-- The exceptions of the service, and any other with its `str`.
pub data LlmError : Type 0 where
  model_not_found : Text → LlmError
  ollama_unreachable : LlmError
  stream_interrupted : Text → LlmError
  unexpected : Text → LlmError

-- `e.code`, and `internal_error` for what is no LLMServiceError
unfoldable pub error_code : LlmError → Text
error_code (model_not_found m) = codes "model_not_found"
error_code ollama_unreachable = codes "ollama_unreachable"
error_code (stream_interrupted t) = codes "stream_interrupted"
error_code (unexpected t) = codes "internal_error"

-- `str(e)`
unfoldable pub error_message : LlmError → Text
error_message (model_not_found m) =
    codes "Model '" ++ m ++ codes "' not found. Try: ollama pull " ++ m
error_message ollama_unreachable = codes "Could not reach Ollama - is `ollama serve` running?"
error_message (stream_interrupted t) = t
error_message (unexpected t) = t

pub record ChatMessage : Type 0 where
  pub role : Text
  pub content : Text

abbrev pub Try : Type 0 → Type 0
Try A = Result LlmError A

-- What a generator yields, and the exception that ends it, if one does.
abbrev pub Emitted : Type 0 → Type 0
Emitted A = List A × Option LlmError
