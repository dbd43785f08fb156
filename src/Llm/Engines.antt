-- ===== src/Llm/Engines.antt =====
-- The engines of llm/engines/ as the chat service sees them, and the engine that llm/engine_manager.py
-- makes. What Ollama answers is a parameter: to the readiness check, to the health check, and the
-- stream for the messages.
pub mod Laws
mod Tests
use bibi_core.Base.{ℕ, true, List, Text, Result, ok, raise, ◌>>=◌, Option}
use bibi_core.Llm.Models.{ChatMessage}
use bibi_core.Llm.Ollama.{
  OllamaEngine, Listing, ClientError, ensure_model_available, stream_response, health_check,
  mock_stream_response,
}
use bibi_core.Llm.Chat.{Engine}
use bibi_core.Providers.{LlmProvider, ollama, mock, llm_provider_class}

-- `MockEngine`
unfoldable pub mock_engine : Engine
unfolding mock_stream_response
mock_engine = record {
  ready = ok tt;
  stream_response = λ history prompt. mock_stream_response prompt;
  reachable = true;
}

module _ (e : OllamaEngine) (now : ℕ) (listing health : Listing)
    (stream : List ChatMessage → List Text × Option ClientError) where
  -- `OllamaEngine`, for a request at the time `now`
  unfoldable pub ollama_engine : Engine
  unfolding ensure_model_available stream_response health_check
  ollama_engine = record {
    ready = (ensure_model_available e now listing).1;
    stream_response = stream_response e stream;
    reachable = health_check health;
  }

  unfoldable pub engine_of : LlmProvider → Engine
  engine_of ollama = ollama_engine
  engine_of mock = mock_engine

  -- `EngineManager.__init__`: the engine, or the message of the ValueError
  unfoldable pub new_engine : Text → Result Text Engine
  new_engine provider = llm_provider_class provider >>= λ cls. ok (engine_of cls)
