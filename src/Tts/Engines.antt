-- ===== src/Tts/Engines.antt =====
-- The engine classes of tts/engines/, by their provider, and tts/engine_manager.py over the class that
-- the configuration names. `make` is what the native constructor makes of a path; a path in the
-- directory is given by its name.
pub mod Laws
mod Tests
use bibi_core.Base.{ℕ, List, [], ◌∷◌, Text, codes, Result, ok, raise, ◌>>=◌}
use bibi_core.Files.{FilePath}
use bibi_core.Catalogue.{Entry, piper_available}
use bibi_core.Manager.{Manager, get_or_load}
use bibi_core.Providers.{TtsProvider, piper, mock, tts_provider_class}
use bibi_core.Tts.Models.{TtsError, Try}
use bibi_core.Tts.Piper.{load_engine}
use bibi_core.Tts.Service.{voice_error, key_error}

-- `list_available`, and `EngineManager.list_voices` over the class
unfoldable pub list_voices : TtsProvider → List Entry → List Text
unfolding piper_available
list_voices piper entries = piper_available entries
list_voices mock entries = codes "mock" ∷ []

-- `EngineManager.__init__`, for a default name and a capacity: the class and the empty manager, or the
-- message of the ValueError.
unfoldable pub new_manager : {E : Type 0} → Text → Text → ℕ → Result Text (TtsProvider × Manager E)
new_manager provider default max_loaded = tts_provider_class provider >>= λ cls. ok (
  cls,
  record { default = default; cache = record { engines = []; refs = []; max_loaded = max_loaded } },
)

module _ {E : Type 0} (make : TtsProvider → Text → Try E) (cls : TtsProvider) (directory : FilePath)
    (entries : List Entry) where
  -- `resolve_path` and the constructor of the class
  unfoldable pub load_voice : Text → Try E
  unfolding load_engine
  load_voice name = elim cls [
    | piper ↦ load_engine (make piper) directory entries name
    | mock ↦ make mock name
  ]

  -- `EngineManager._get_or_load` for the class
  unfoldable pub get_voice : Manager E → Text → Manager E × Try E
  unfolding load_voice get_or_load
  get_voice = get_or_load voice_error key_error load_voice
