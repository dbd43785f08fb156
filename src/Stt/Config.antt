-- ===== src/Stt/Config.antt =====
-- stt/config.py. `base` is BASE_DIR, `upper` Python's `str.upper`.
pub mod Laws
mod Tests
use bibi_core.Base.{
  Bool, Option, List, [], ◌∷◌, if◌then◌else◌, Text, codes, Result, ok, raise, ◌>>=◌,
}
use bibi_core.Files.{FilePath, starts_with, to_path, join}
use bibi_core.Settings.{
  Value, text, number, decimal, texts, path, other, Toml, ConfigError, attribute_error, Try,
  section_of, check_names, field, ServerConfig, EngineConfig, server_of, engine_of, read_toml,
}

pub record ModelsConfig (O : Type 0) : Type 0 where
  pub directory : FilePath
  pub default : Value O
  pub max_loaded : Value O

pub record Config (O : Type 0) : Type 0 where
  pub models : ModelsConfig O
  pub server : ServerConfig O
  pub engine : EngineConfig O

-- `ModelsConfig.__post_init__`
unfoldable pub anchored : {O : Type 0} → FilePath → Value O → Try FilePath
unfolding starts_with to_path join
anchored base (text t) =
    ok (if starts_with (codes "./") t then join base (to_path t) else to_path t)
anchored base (number n) = raise (attribute_error (codes "startswith"))
anchored base (decimal t) = raise (attribute_error (codes "startswith"))
anchored base (texts ts) = raise (attribute_error (codes "startswith"))
anchored base (path p) = raise (attribute_error (codes "startswith"))
anchored base (other o) = raise (attribute_error (codes "startswith"))

abbrev pub models_fields : List Text
models_fields = codes "directory" ∷ codes "default" ∷ codes "max_loaded" ∷ []

module _ {O : Type 0} (base : FilePath) (upper : Text → Text) where
  unfoldable pub models_config : List (Text × Value O) → Try (ModelsConfig O)
  unfolding check_names field anchored
  models_config arguments = do
    _ ← check_names models_fields arguments
    directory ← anchored base (field arguments (codes "directory") (text (codes "./models")))
    ok (record {
      directory = directory;
      default = field arguments (codes "default") (text (codes "ggml-base"));
      max_loaded = field arguments (codes "max_loaded") (number 4);
    })

  unfoldable pub server_config : List (Text × Value O) → Try (ServerConfig O)
  unfolding server_of
  server_config = server_of upper 5001 50051

  unfoldable pub engine_config : List (Text × Value O) → Try (EngineConfig O)
  unfolding engine_of
  engine_config = engine_of (codes "whispercpp")

  -- `Config.load`, after the file was read
  unfoldable pub from_toml : Toml O → Try (Config O)
  unfolding section_of models_config server_config engine_config
  from_toml toml = do
    models_arguments ← section_of toml (codes "models")
    models ← models_config models_arguments
    server_arguments ← section_of toml (codes "server")
    server ← server_config server_arguments
    engine_arguments ← section_of toml (codes "engine")
    engine ← engine_config engine_arguments
    ok (record { models = models; server = server; engine = engine })

  unfoldable pub load : (Text → Try (Toml O)) → Option Text → Try (Config O)
  unfolding read_toml from_toml
  load loads file = read_toml loads file >>= from_toml
