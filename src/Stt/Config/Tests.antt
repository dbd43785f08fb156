-- ===== src/Stt/Config/Tests.antt =====
-- A file with two tables, and one with a name that is no field.
use bibi_core.Base.{
  ℕ, ◌-◌, ◌≡◌, ◌↔◌, refl, true, ◌&&◌, leb, [], ◌∷◌, map, if◌then◌else◌, Text, Text-discrete, codes,
  ok, lookup, mem_text, text_eq, split_on,
}
use bibi_core.Paths.{parts, is_part}
use bibi_core.Files.{FilePath, starts_with, to_path, join}
use bibi_core.Settings.{
  text, number, table, Toml, section_of, check_names, field, upper_level, server_of, engine_of,
}
use bibi_core.Stt.Config.{Config, anchored, models_config, server_config, engine_config, from_toml}
use bibi_core.Stt.Config.Laws.{IsConfig, from_toml_iff}

abbrev shout : Text → Text
shout = map (λ c. if leb 97 c && leb c 122 then c - 32 else c)

abbrev base_dir : FilePath
base_dir = record { absolute = true; parts = codes "srv" ∷ codes "stt" ∷ [] }

abbrev file : Toml ℕ
file =
    (
      codes "models",
      table ((codes "directory", text (codes "./models")) ∷ (codes "max_loaded", number 2) ∷ []),
    )
    ∷ (codes "server", table ((codes "log_level", text (codes "debug")) ∷ []))
    ∷ []

abbrev configured : Config ℕ
configured = record {
  models = record {
    directory = record { absolute = true; parts = codes "srv" ∷ codes "stt" ∷ codes "models" ∷ [] };
    default = text (codes "ggml-base");
    max_loaded = number 2;
  };
  server = record {
    host = text (codes "0.0.0.0");
    port = number 5001;
    grpc_port = number 50051;
    log_level = codes "DEBUG";
  };
  engine = record { provider = text (codes "whispercpp") };
}

from_toml_file : from_toml base_dir shout file ≡ ok configured
unfolding from_toml models_config server_config engine_config section_of check_names field
    upper_level server_of engine_of anchored starts_with to_path join lookup mem_text text_eq
    split_on parts is_part Text-discrete
from_toml_file = refl

from_toml_iff_example :
    (from_toml base_dir shout file ≡ ok configured) ↔ IsConfig base_dir shout file configured
from_toml_iff_example = from_toml_iff base_dir shout file configured
