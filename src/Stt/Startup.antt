-- ===== src/Stt/Startup.antt =====
-- How the process of stt/main.py starts: the engine manager is made when stt/engine_manager.py is
-- imported, and `main` loads the default model before it serves.
pub mod Laws
mod Tests
use bibi_core.Base.{ℕ, none, List, Text, codes, Result, ok, raise}
use bibi_core.Catalogue.{Entry}
use bibi_core.Manager.{Manager, get_engine}
use bibi_core.Providers.{SttProvider}
use bibi_core.Stt.Models.{SttError, model_not_found, unexpected, Try}
use bibi_core.Stt.Engines.{new_manager, load_engine}

-- What ends the process: a ValueError with its message, or the exception of the load.
pub data Failure : Type 0 where
  no_provider : Text → Failure
  not_loaded : SttError → Failure

unfoldable pub warmed :
    {E : Type 0} → SttProvider → Manager E × Try E → Result Failure (SttProvider × Manager E)
warmed cls (m, raise x) = raise (not_loaded x)
warmed cls (m, ok e) = ok (cls, m)

module _ {E : Type 0} (make : SttProvider → Text → Try E) (entries : List Entry) where
  -- `engine_manager.get_engine()`
  unfoldable pub warm_up : SttProvider → Manager E → Result Failure (SttProvider × Manager E)
  unfolding warmed get_engine load_engine
  warm_up cls m = warmed cls (
      get_engine model_not_found (unexpected (codes "KeyError")) (load_engine make cls entries) m
        none)

  -- With the provider, the default model and the capacity of the configuration.
  unfoldable pub start_up : Text → Text → ℕ → Result Failure (SttProvider × Manager E)
  unfolding new_manager warm_up
  start_up provider default max_loaded = elim (new_manager {E = E} provider default max_loaded) [
    | raise t ↦ raise (no_provider t)
    | ok (cls, m) ↦ warm_up cls m
  ]
