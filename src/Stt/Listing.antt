-- ===== src/Stt/Listing.antt =====
-- GET `/models` of stt/api/routes.py, with `ApiResponse` of stt/api/models.py.
pub mod Laws
mod Tests
use bibi_core.Base.{ℕ, List, ◌++◌, Text, codes, length}
use bibi_core.Base.Decimal.{decimal}
use bibi_core.Catalogue.{Entry}
use bibi_core.Providers.{SttProvider}
use bibi_core.Stt.Engines.{list_available}

pub record ApiResponse (A : Type 0) : Type 0 where
  -- `data`
  pub payload : A
  pub status : ℕ
  pub message : Text

-- The route, over `EngineManager.list_models` for the class and the directory of the configuration.
unfoldable pub list_models : SttProvider → List Entry → ApiResponse (List Text)
unfolding list_available decimal
list_models cls entries =
    let models = list_available cls entries in
    record {
      payload = models;
      status = 200;
      message = decimal (length models) ++ codes " available models";
    }
