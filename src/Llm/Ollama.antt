-- ===== src/Llm/Ollama.antt =====
-- llm/engines/ollama_engine.py and llm/engines/mock_engine.py. Ollama's answers and the clock are
-- arguments; a time is a natural number in some unit, and the clock does not run backwards.
pub mod Laws
pub mod Checks
use bibi_core.Base.{
  ℕ, ◌+◌, Bool, true, false, ◌||◌, Option, none, some, List, [], ◌∷◌, ◌++◌, ltb, ◌==◌,
  if◌then◌else◌, ok, raise, Text, codes, text_eq, split_on, map,
}
use bibi_core.Llm.Models.{
  LlmError, model_not_found, ollama_unreachable, stream_interrupted, unexpected, ChatMessage, Try,
  Emitted,
}

pub record OllamaEngine : Type 0 where
  pub model : Text
  -- `availability_cache_seconds`
  pub ttl : ℕ
  pub last_checked_at : Option ℕ

-- What `client.list()` does.
pub data Listing : Type 0 where
  listed : List Text → Listing
  connect_error : Listing
  other_error : Text → Listing

-- `m.split(":")[0]`
abbrev pub first_part : List Text → Text
first_part [] = []
first_part (w ∷ ws) = w

unfoldable pub matches : Text → List Text → Bool
unfolding text_eq split_on
matches model [] = false
matches model (m ∷ available) =
    text_eq model m || text_eq model (first_part (split_on b':' m)) || matches model available

-- `_last_checked_at is not None and (now - _last_checked_at) < ttl`
unfoldable pub is_fresh : OllamaEngine → ℕ → Bool
is_fresh e now = elim e.last_checked_at [ none ↦ false | some t ↦ ltb now (t + e.ttl) ]

unfoldable pub check_listing : OllamaEngine → ℕ → Listing → OllamaEngine × Try (Unit {0})
unfolding matches
check_listing e now (listed available) =
    if matches e.model available
    then (record e { last_checked_at = some now }, ok tt)
    else (e, raise (model_not_found e.model))
check_listing e now connect_error = (e, raise ollama_unreachable)
check_listing e now (other_error t) = (e, raise (unexpected t))

unfoldable pub ensure_model_available : OllamaEngine → ℕ → Listing → OllamaEngine × Try (Unit {0})
unfolding is_fresh check_listing
ensure_model_available e now listing =
    if is_fresh e now then (e, ok tt) else check_listing e now listing

-- What the client raises while it streams.
pub data ClientError : Type 0 where
  response_error : ℕ → Text → ClientError
  connection_lost : Text → ClientError
  other : Text → ClientError

unfoldable pub translate : OllamaEngine → ClientError → LlmError
translate e (response_error status t) =
    if status == 404 then model_not_found e.model else stream_interrupted t
translate e (connection_lost t) = stream_interrupted t
translate e (other t) = unexpected t

-- `if token: yield token`
unfoldable pub tokens_of : List Text → List Text
tokens_of [] = []
tokens_of ([] ∷ ts) = tokens_of ts
tokens_of ((c ∷ t) ∷ ts) = (c ∷ t) ∷ tokens_of ts

abbrev pub translate_end : OllamaEngine → Option ClientError → Option LlmError
translate_end e none = none
translate_end e (some x) = some (translate e x)

unfoldable pub messages_for : List ChatMessage → Text → List ChatMessage
messages_for history prompt = history ++ record { role = codes "user"; content = prompt } ∷ []

-- `chat` is what the client streams for the messages, and the exception that ends it.
unfoldable pub stream_response :
    OllamaEngine
    → (List ChatMessage → List Text × Option ClientError)
    → List ChatMessage
    → Text
    → Emitted Text
unfolding translate tokens_of messages_for
stream_response e chat history prompt =
    let (tokens, end) = chat (messages_for history prompt) in
    (tokens_of tokens, translate_end e end)

unfoldable pub health_check : Listing → Bool
health_check (listed models) = true
health_check connect_error = false
health_check (other_error t) = false

-- MockEngine.stream_response
unfoldable pub mock_stream_response : Text → Emitted Text
unfolding split_on
mock_stream_response prompt =
    (map (λ w. w ++ codes " ") (split_on b' ' (codes "You said: " ++ prompt)), none)
