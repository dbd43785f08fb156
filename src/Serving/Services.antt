-- ===== src/Serving/Services.antt =====
-- What each service starts: `serve` of its grpc_server.py, `serve_http` and `main` of its main.py.
-- `full_name` is the name that the generated code gives the service, `reflection_name` that of the
-- reflection service of grpc, `shown` the `str` of a value that is neither a text nor a number.
use bibi_core.Base.{ℕ, List, [], ◌∷◌, ◌++◌, Text, codes, Result, ok, raise}
use bibi_core.Base.Decimal
use bibi_core.Catalogue.{Entry}
use bibi_core.Providers.{SttProvider}
use bibi_core.Settings.{Value, text, number, decimal, texts, path, other, ServerConfig}
use bibi_core.Stt.Models.{Try}
use bibi_core.Stt.Startup.{Failure, start_up}
use bibi_core.Serving.{
  Call, add_servicer, enable_reflection, add_insecure_port, HttpConfig, Process, start,
}

module _ {O : Type 0} (shown : Value O → Text) where
  -- `{v}` in an f-string
  unfoldable pub formatted : Value O → Text
  unfolding Decimal.decimal
  formatted (text t) = t
  formatted (number n) = Decimal.decimal n
  formatted (decimal t) = shown (decimal t)
  formatted (texts ts) = shown (texts ts)
  formatted (path p) = shown (path p)
  formatted (other o) = shown (other o)

  -- `f"{config.server.host}:{config.server.grpc_port}"`
  unfoldable pub address : ServerConfig O → Text
  unfolding formatted
  address server = formatted server.host ++ (codes ":" ++ formatted server.grpc_port)

  -- The calls of `serve` on the server, for the class of its servicer.
  unfoldable pub setup : Text → Text → Text → ServerConfig O → List Call
  unfolding address
  setup servicer full_name reflection_name server =
      add_servicer servicer
      ∷ enable_reflection (full_name ∷ reflection_name ∷ [])
      ∷ add_insecure_port (address server)
      ∷ []

-- The configuration that `serve_http` gives uvicorn.
unfoldable pub http_config : {O : Type 0} → (Text → Text) → ServerConfig O → HttpConfig (Value O)
http_config lower server = record {
  host = server.host;
  port = server.port;
  log_level = lower server.log_level;
}

module _ {O : Type 0} (shown : Value O → Text) (full_name reflection_name : Text)
    (server : ServerConfig O) where
  unfoldable pub stt_setup : List Call
  unfolding setup
  stt_setup = setup shown (codes "SpeechToTextServicer") full_name reflection_name server

  unfoldable pub llm_setup : List Call
  unfolding setup
  llm_setup = setup shown (codes "LLMChatServicer") full_name reflection_name server

  unfoldable pub tts_setup : List Call
  unfolding setup
  tts_setup = setup shown (codes "TextToSpeechServicer") full_name reflection_name server

  module _ (lower : Text → Text) (X : Type 0) where
    unfoldable pub llm_process : Process (Value O) X
    unfolding llm_setup http_config
    llm_process = start llm_setup (http_config lower server)

    unfoldable pub tts_process : Process (Value O) X
    unfolding tts_setup http_config
    tts_process = start tts_setup (http_config lower server)

    -- `main` of stt/main.py loads the default model before it gathers.
    unfoldable pub stt_process :
        {E : Type 0}
        → (SttProvider → Text → Try E)
        → List Entry
        → Text
        → Text
        → ℕ
        → Result Failure (Process (Value O) X)
    unfolding stt_setup http_config start_up
    stt_process make entries provider default max_loaded =
        elim (start_up make entries provider default max_loaded) [
          | raise f ↦ raise f
          | ok _ ↦ ok (start stt_setup (http_config lower server))
        ]
