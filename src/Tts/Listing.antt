-- ===== src/Tts/Listing.antt =====
-- GET `/voices` of tts/api/routes.py, with `ApiResponse` of tts/api/models.py.
mod Tests
use bibi_core.Base.{ℕ, List, ◌++◌, Text, codes, length}
use bibi_core.Base.Decimal.{decimal}
use bibi_core.Catalogue.{Entry}
use bibi_core.Providers.{TtsProvider}
use bibi_core.Tts.Engines

pub record ApiResponse (A : Type 0) : Type 0 where
  -- `data`
  pub payload : A
  pub status : ℕ
  pub message : Text

-- The route, over `EngineManager.list_voices` for the class and the directory of the configuration.
unfoldable pub list_voices : TtsProvider → List Entry → ApiResponse (List Text)
unfolding Engines.list_voices decimal
list_voices cls entries =
    let voices = Engines.list_voices cls entries in
    record {
      payload = voices;
      status = 200;
      message = decimal (length voices) ++ codes " available voices";
    }
