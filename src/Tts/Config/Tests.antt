-- ===== src/Tts/Config/Tests.antt =====
-- The same directory, by default and in a file.
use bibi_core.Base.{
  ℕ, none, some, true, false, ◌≡◌, refl, List, [], ◌∷◌, Text, Text-discrete, codes, ok, lookup,
  mem_text, text_eq,
}
use bibi_core.Files.{FilePath}
use bibi_core.Settings.{Value, text, number, check_names, field}
use bibi_core.Tts.Config.{VoicesConfig, str_of, placed, default_directory, voices_config}
use bibi_core.Tts.Config.Laws.{default_directory_loose}

abbrev base_dir : FilePath
base_dir = record { absolute = true; parts = codes "srv" ∷ codes "tts" ∷ [] }

abbrev shown : Value ℕ → Text
shown v = codes "0"

abbrev same : Text → Text
same t = t

abbrev not_in_file : List (Text × Value ℕ)
not_in_file = []

abbrev in_file : List (Text × Value ℕ)
in_file = (codes "directory", text (codes "./voices")) ∷ []

abbrev by_default : VoicesConfig ℕ
by_default = record {
  directory = placed base_dir (str_of shown default_directory);
  default = text (codes "en_US-lessac-high.onnx");
  max_loaded = number 3;
}

abbrev as_written : VoicesConfig ℕ
as_written = record by_default { directory = placed base_dir (codes "./voices") }

by_default_made : voices_config base_dir same shown not_in_file ≡ ok by_default
unfolding voices_config check_names field lookup
by_default_made = refl

as_written_made : voices_config base_dir same shown in_file ≡ ok as_written
unfolding voices_config check_names field lookup mem_text text_eq str_of Text-discrete
as_written_made = refl

in_file_found : lookup Text-discrete (codes "directory") in_file ≡ some (text (codes "./voices"))
unfolding lookup Text-discrete
in_file_found = refl

none_found : lookup Text-discrete (codes "directory") not_in_file ≡ none
unfolding lookup
none_found = refl

default_directory_loose_example :
    (placed base_dir (str_of shown default_directory)
      ≡ record { absolute = false; parts = codes "voices" ∷ [] })
    × (placed base_dir (codes "./voices")
        ≡ record { absolute = true; parts = codes "srv" ∷ codes "tts" ∷ codes "voices" ∷ [] })
default_directory_loose_example =
    default_directory_loose base_dir same shown not_in_file in_file by_default as_written
      by_default_made as_written_made none_found in_file_found
