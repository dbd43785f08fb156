-- ===== src/Stt/Engines.antt =====
-- The engine classes of stt/engines/, by their provider, and stt/engine_manager.py over the class that
-- the configuration names. `make` is the constructor of the engines, which reads a model from a path; a
-- path in the directory is given by its name.
pub mod Laws
mod Tests
use bibi_core.Base.{ℕ, none, some, Option, List, [], ◌∷◌, Text, codes, Result, ok, raise, ◌>>=◌}
use bibi_core.Catalogue.{Entry, is_file, whisper_available}
use bibi_core.Manager.{Manager, get_or_load}
use bibi_core.Providers.{SttProvider, whispercpp, mock, stt_provider_class}
use bibi_core.Stt.Models.{AudioFormatSpec, SttError, model_not_found, unexpected, Try}
use bibi_core.Stt.Whisper.{required_format, resolve_path}

-- `list_available`
unfoldable pub list_available : SttProvider → List Entry → List Text
unfolding whisper_available
list_available whispercpp entries = whisper_available entries
list_available mock entries = codes "mock" ∷ []

-- `resolve_path`
unfoldable pub path_of : SttProvider → List Entry → Text → Try Text
unfolding resolve_path is_file
path_of whispercpp entries name = resolve_path (is_file entries) name
path_of mock entries name = ok name

-- `required_format`
unfoldable pub format_of : SttProvider → Option AudioFormatSpec
format_of whispercpp = some required_format
format_of mock = none

-- `EngineManager.__init__`, for a default name and a capacity: the class and the empty manager, or the
-- message of the ValueError.
unfoldable pub new_manager : {E : Type 0} → Text → Text → ℕ → Result Text (SttProvider × Manager E)
new_manager provider default max_loaded = stt_provider_class provider >>= λ cls. ok (
  cls,
  record { default = default; cache = record { engines = []; refs = []; max_loaded = max_loaded } },
)

module _ {E : Type 0} (make : SttProvider → Text → Try E) (cls : SttProvider)
    (entries : List Entry) where
  -- What `_get_or_load` does outside the lock.
  unfoldable pub load_engine : Text → Try E
  unfolding path_of
  load_engine name = path_of cls entries name >>= make cls

  -- `EngineManager._get_or_load` for the class
  unfoldable pub get_model : Manager E → Text → Manager E × Try E
  unfolding load_engine get_or_load
  get_model = get_or_load model_not_found (unexpected (codes "KeyError")) load_engine
