-- ===== src/Llm/Chat.antt =====
-- llm/grpc_servicer.py, llm/api/routes.py and the streaming of llm/engine_manager.py. The engine is
-- given by what its readiness check does and what it streams for a history and a prompt. `cancelled`
-- says for each chunk whether the client had cancelled when it came; an HTTP client does not
-- disconnect.
pub mod Laws
use bibi_core.Base.{
  ℕ, suc, Bool, true, false, not, Option, none, some, List, [], ◌∷◌, ◌++◌, map, if◌then◌else◌, ok,
  raise, Text, codes, strip,
}
use bibi_core.Llm.Personality.{personality}
use bibi_core.Llm.Models.{
  LlmError, model_not_found, ollama_unreachable, stream_interrupted, unexpected, error_code,
  error_message, ChatMessage, Try, Emitted,
}
use bibi_core.Llm.Chunker.{Unicode, Chunking, chunk_stream}

pub record Engine : Type 0 where
  -- `ensure_model_available`
  pub ready : Try (Unit {0})
  pub stream_response : List ChatMessage → Text → Emitted Text
  pub reachable : Bool

-- `ChatEvent` of the gRPC stream, and a line of the NDJSON stream.
pub data ChatEvent : Type 0 where
  chunk : Text → ChatEvent
  done : ChatEvent
  error : Text → Text → ChatEvent

pub data Status : Type 0 where
  not_found unavailable : Status

-- What an RPC does: a status from `context.abort`, an exception that the code lets through, or events.
pub data Reply : Type 0 where
  aborted : Status → Text → Reply
  failed : LlmError → Reply
  streamed : List ChatEvent → Reply

-- The detail of an HTTPException: `type` and `code` stand in some of them only.
pub record Detail : Type 0 where
  pub type : Option Text
  pub code : Option Text
  pub message : Text

abbrev pub coded : Text → Text → Detail
coded code message = record { type = none; code = some code; message = message }

-- What an HTTP route does: an HTTPException with its status code and detail, or a body.
pub data Response (A : Type 0) : Type 0 where
  http_error : ℕ → Detail → Response A
  success : A → Response A

abbrev pub error_event : LlmError → ChatEvent
error_event x = error (error_code x) (error_message x)

unfoldable pub end_events : Option LlmError → List ChatEvent
end_events none = done ∷ []
end_events (some x) = error_event x ∷ []

-- The `async for` loop of `StreamChat`; `i` counts the chunks.
unfoldable pub chat_events : (ℕ → Bool) → ℕ → List Text → Option LlmError → List ChatEvent
unfolding end_events
chat_events cancelled i [] x = end_events x
chat_events cancelled i (c ∷ cs) x =
    let rest = chat_events cancelled (suc i) cs x in if cancelled i then [] else chunk c ∷ rest

-- The loop of `generate` in `/chat/stream`.
unfoldable pub stream_lines : List Text → Option LlmError → List ChatEvent
unfolding end_events
stream_lines cs x = map chunk cs ++ end_events x

unfoldable pub validate_prompt : Text → Option (Response (Unit {0}))
unfolding strip
validate_prompt prompt = elim (strip prompt) [
  | [] ↦ some (http_error 400 (coded (codes "invalid_request") (codes "Prompt is required")))
  | c ∷ s ↦ none
]

unfoldable pub readiness_status : LlmError → ℕ
readiness_status (model_not_found m) = 404
readiness_status ollama_unreachable = 503
readiness_status (stream_interrupted t) = 500
readiness_status (unexpected t) = 500

-- The `code` that `_ensure_engine_ready` puts into its detail.
unfoldable pub readiness_code : LlmError → Text
readiness_code (model_not_found m) = error_code (model_not_found m)
readiness_code ollama_unreachable = error_code ollama_unreachable
readiness_code (stream_interrupted t) = codes "internal_error"
readiness_code (unexpected t) = codes "internal_error"

-- `LLMServiceError` is a 400 of `/chat`, any other exception a 500.
unfoldable pub failure_status : LlmError → ℕ
failure_status (unexpected t) = 500
failure_status (model_not_found m) = 400
failure_status ollama_unreachable = 400
failure_status (stream_interrupted t) = 400

-- The detail of that answer; the one of the 500 has no code.
unfoldable pub failure_detail : LlmError → Detail
failure_detail (unexpected t) = record {
  type = some (codes "internal_error");
  code = none;
  message = error_message (unexpected t);
}
failure_detail (model_not_found m) = record {
  type = some (codes "error");
  code = some (error_code (model_not_found m));
  message = error_message (model_not_found m);
}
failure_detail ollama_unreachable = record {
  type = some (codes "error");
  code = some (error_code ollama_unreachable);
  message = error_message ollama_unreachable;
}
failure_detail (stream_interrupted t) = record {
  type = some (codes "error");
  code = some (error_code (stream_interrupted t));
  message = error_message (stream_interrupted t);
}

-- The `try` of `/chat`.
unfoldable pub collected : Emitted Text → Response (List ChatEvent)
collected (cs, none) = success (map chunk cs ++ done ∷ [])
collected (cs, some x) = http_error (failure_status x) (failure_detail x)

module _ (unicode : Unicode) (config : Chunking) (engine : Engine) where
  unfoldable pub stream_chat_response : Text → List ChatMessage → Emitted Text
  stream_chat_response prompt history =
      chunk_stream unicode config (engine.stream_response history prompt)

  -- gRPC `StreamChat`
  unfoldable pub stream_chat : (ℕ → Bool) → Text → List ChatMessage → Reply
  unfolding stream_chat_response chat_events
  stream_chat cancelled prompt history = elim engine.ready [
    | raise (model_not_found m) ↦ aborted not_found (error_message (model_not_found m))
    | raise ollama_unreachable ↦ aborted unavailable (error_message ollama_unreachable)
    | raise (stream_interrupted t) ↦ failed (stream_interrupted t)
    | raise (unexpected t) ↦ failed (unexpected t)
    | ok _ ↦
        let (cs, x) = stream_chat_response prompt (personality ∷ history) in
        streamed (chat_events cancelled 0 cs x)
  ]

  -- `_validate_prompt` and `_ensure_engine_ready`, then the route's own work
  unfoldable pub guarded : {A : Type 0} → Text → Response A → Response A
  unfolding validate_prompt
  guarded prompt work = elim (validate_prompt prompt) [
    | some (http_error status detail) ↦ http_error status detail
    | some (success _) ↦ work
    | none ↦ elim engine.ready [
      | raise x ↦ http_error (readiness_status x) (coded (readiness_code x) (error_message x))
      | ok _ ↦ work
    ]
  ]

  -- POST `/chat/stream`
  unfoldable pub chat_stream : Text → List ChatMessage → Response (List ChatEvent)
  unfolding stream_chat_response stream_lines guarded
  chat_stream prompt history =
      let (cs, x) = stream_chat_response prompt (personality ∷ history) in
      guarded prompt (success (stream_lines cs x))

  -- POST `/chat`
  unfoldable pub chat : Text → List ChatMessage → Response (List ChatEvent)
  unfolding stream_chat_response collected guarded
  chat prompt history =
      guarded prompt (collected (stream_chat_response prompt (personality ∷ history)))

  -- GET `/health`, and the gRPC `HealthCheck`
  unfoldable pub health : Text × Bool
  health = (if engine.reachable then codes "ok" else codes "degraded", engine.reachable)
