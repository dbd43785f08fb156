-- ===== src/Tts/Piper/Tests.antt =====
-- A directory with one voice, a model without configuration and the configuration.
use bibi_core.Base.{◌≡◌, refl, inl, true, false, List, [], ◌∷◌, Text, text_eq, codes, ok, ℕ}
use bibi_core.Files.{FilePath}
use bibi_core.Catalogue.{Entry, exists_in, drop_suffix, onnx_names, piper_available}
use bibi_core.Catalogue.Laws.{IsMember}
use bibi_core.Tts.Models.{Try}
use bibi_core.Tts.Piper.{load_engine}
use bibi_core.Tts.Piper.Laws.{piper_available-load_engine}

abbrev voices : List Entry
voices =
    record { name = codes "amy.onnx.json"; file = true }
    ∷ record { name = codes "joe.onnx"; file = true }
    ∷ record { name = codes "amy.onnx"; file = true }
    ∷ []

abbrev directory : FilePath
directory = record { absolute = false; parts = codes "voices" ∷ [] }

abbrev load : Text → Try ℕ
load path = ok 5

listed : piper_available voices ≡ codes "amy.onnx" ∷ []
unfolding piper_available onnx_names exists_in drop_suffix text_eq
listed = refl

amy_listed : IsMember (codes "amy.onnx") (piper_available voices)
amy_listed = rw listed (inl refl)

amy_loads : load_engine load directory voices (codes "amy.onnx") ≡ ok 5
amy_loads =
    piper_available-load_engine load directory voices (codes "amy.onnx") (refl, (refl, (refl, tt)))
      amy_listed
