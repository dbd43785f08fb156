-- ===== src/Tts/Config.antt =====
-- tts/config.py. `base` is BASE_DIR, `upper` Python's `str.upper`, and `shown` its `str` of what is
-- neither a text nor a path.
pub mod Laws
mod Tests
use bibi_core.Base.{
  Bool, Option, List, [], ◌∷◌, if◌then◌else◌, Text, codes, Result, ok, raise, ◌>>=◌,
}
use bibi_core.Files.{FilePath, starts_with, to_path, join, path_str}
use bibi_core.Settings.{
  Value, text, number, decimal, texts, path, other, Toml, ConfigError, Try, section_of, check_names,
  field, ServerConfig, EngineConfig, server_of, engine_of, read_toml,
}

pub record VoicesConfig (O : Type 0) : Type 0 where
  pub directory : FilePath
  pub default : Value O
  pub max_loaded : Value O

pub record PiperConfig (O : Type 0) : Type 0 where
  pub sample_rate : Value O

pub record Config (O : Type 0) : Type 0 where
  pub voices : VoicesConfig O
  pub piper : PiperConfig O
  pub server : ServerConfig O
  pub engine : EngineConfig O

-- `str(self.directory)`
unfoldable pub str_of : {O : Type 0} → (Value O → Text) → Value O → Text
unfolding path_str
str_of shown (text t) = t
str_of shown (path p) = path_str p
str_of shown (number n) = shown (number n)
str_of shown (decimal t) = shown (decimal t)
str_of shown (texts ts) = shown (texts ts)
str_of shown (other o) = shown (other o)

-- `VoicesConfig.__post_init__`, with the text of the directory
unfoldable pub placed : FilePath → Text → FilePath
unfolding starts_with to_path join
placed base t = if starts_with (codes "./") t then join base (to_path t) else to_path t

abbrev pub voices_fields : List Text
voices_fields = codes "directory" ∷ codes "default" ∷ codes "max_loaded" ∷ []

abbrev pub piper_fields : List Text
piper_fields = codes "sample_rate" ∷ []

-- The default of the field is a path, and no text.
unfoldable pub default_directory : {O : Type 0} → Value O
unfolding to_path
default_directory = path (to_path (codes "./voices"))

module _ {O : Type 0} (base : FilePath) (upper : Text → Text) (shown : Value O → Text) where
  unfoldable pub voices_config : List (Text × Value O) → Try (VoicesConfig O)
  unfolding check_names field str_of placed default_directory
  voices_config arguments = do
    _ ← check_names voices_fields arguments
    ok (record {
      directory =
          placed base (str_of shown (field arguments (codes "directory") default_directory));
      default = field arguments (codes "default") (text (codes "en_US-lessac-high.onnx"));
      max_loaded = field arguments (codes "max_loaded") (number 3);
    })

  unfoldable pub piper_config : List (Text × Value O) → Try (PiperConfig O)
  unfolding check_names field
  piper_config arguments = do
    _ ← check_names piper_fields arguments
    ok (record { sample_rate = field arguments (codes "sample_rate") (number 22050) })

  unfoldable pub server_config : List (Text × Value O) → Try (ServerConfig O)
  unfolding server_of
  server_config = server_of upper 5000 50050

  unfoldable pub engine_config : List (Text × Value O) → Try (EngineConfig O)
  unfolding engine_of
  engine_config = engine_of (codes "piper")

  -- `Config.load`, after the file was read
  unfoldable pub from_toml : Toml O → Try (Config O)
  unfolding section_of voices_config piper_config server_config engine_config
  from_toml toml = do
    voices_arguments ← section_of toml (codes "voices")
    voices ← voices_config voices_arguments
    piper_arguments ← section_of toml (codes "piper")
    piper ← piper_config piper_arguments
    server_arguments ← section_of toml (codes "server")
    server ← server_config server_arguments
    engine_arguments ← section_of toml (codes "engine")
    engine ← engine_config engine_arguments
    ok (record { voices = voices; piper = piper; server = server; engine = engine })

  unfoldable pub load : (Text → Try (Toml O)) → Option Text → Try (Config O)
  unfolding read_toml from_toml
  load loads file = read_toml loads file >>= from_toml
