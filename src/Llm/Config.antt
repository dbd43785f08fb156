-- ===== src/Llm/Config.antt =====
-- llm/config.py. `upper` is Python's `str.upper`.
use bibi_core.Base.{Option, List, [], ◌∷◌, Text, codes, ok, ◌>>=◌}
use bibi_core.Settings.{
  Value, text, number, decimal, texts, Toml, Try, section_of, check_names, field, ServerConfig,
  EngineConfig, server_of, engine_of, read_toml,
}

pub record OllamaConfig (O : Type 0) : Type 0 where
  pub host : Value O
  pub model : Value O
  pub temperature : Value O
  pub context_window : Value O
  pub keep_alive : Value O
  pub availability_cache_seconds : Value O

pub record ChunkingConfig (O : Type 0) : Type 0 where
  pub boundary_chars : Value O
  pub max_chunk_chars : Value O
  pub min_chunk_chars : Value O

pub record Config (O : Type 0) : Type 0 where
  pub ollama : OllamaConfig O
  pub chunking : ChunkingConfig O
  pub server : ServerConfig O
  pub engine : EngineConfig O

abbrev pub ollama_fields : List Text
ollama_fields =
    codes "host"
    ∷ codes "model"
    ∷ codes "temperature"
    ∷ codes "context_window"
    ∷ codes "keep_alive"
    ∷ codes "availability_cache_seconds"
    ∷ []

abbrev pub chunking_fields : List Text
chunking_fields = codes "boundary_chars" ∷ codes "max_chunk_chars" ∷ codes "min_chunk_chars" ∷ []

module _ {O : Type 0} (upper : Text → Text) where
  unfoldable pub ollama_config : List (Text × Value O) → Try (OllamaConfig O)
  unfolding check_names field
  ollama_config arguments = do
    _ ← check_names ollama_fields arguments
    ok (record {
      host = field arguments (codes "host") (text (codes "http://localhost:11434"));
      model = field arguments (codes "model") (text (codes "llama3.1"));
      temperature = field arguments (codes "temperature") (decimal (codes "0.7"));
      context_window = field arguments (codes "context_window") (number 4096);
      keep_alive = field arguments (codes "keep_alive") (text (codes "5m"));
      availability_cache_seconds =
          field arguments (codes "availability_cache_seconds") (decimal (codes "10.0"));
    })

  unfoldable pub chunking_config : List (Text × Value O) → Try (ChunkingConfig O)
  unfolding check_names field
  chunking_config arguments = do
    _ ← check_names chunking_fields arguments
    ok (record {
      boundary_chars =
          field arguments (codes "boundary_chars") (texts (codes "." ∷ codes "?" ∷ codes "!" ∷ []));
      max_chunk_chars = field arguments (codes "max_chunk_chars") (number 200);
      min_chunk_chars = field arguments (codes "min_chunk_chars") (number 10);
    })

  unfoldable pub server_config : List (Text × Value O) → Try (ServerConfig O)
  unfolding server_of
  server_config = server_of upper 5002 50053

  unfoldable pub engine_config : List (Text × Value O) → Try (EngineConfig O)
  unfolding engine_of
  engine_config = engine_of (codes "ollama")

  -- `Config.load`, after the file was read
  unfoldable pub from_toml : Toml O → Try (Config O)
  unfolding section_of ollama_config chunking_config server_config engine_config
  from_toml toml = do
    ollama_arguments ← section_of toml (codes "ollama")
    ollama ← ollama_config ollama_arguments
    chunking_arguments ← section_of toml (codes "chunking")
    chunking ← chunking_config chunking_arguments
    server_arguments ← section_of toml (codes "server")
    server ← server_config server_arguments
    engine_arguments ← section_of toml (codes "engine")
    engine ← engine_config engine_arguments
    ok (record { ollama = ollama; chunking = chunking; server = server; engine = engine })

  unfoldable pub load : (Text → Try (Toml O)) → Option Text → Try (Config O)
  unfolding read_toml from_toml
  load loads file = read_toml loads file >>= from_toml
