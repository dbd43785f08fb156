-- ===== src/Stt/Contract.antt =====
-- `STTEngine` of stt/engines/base.py: the operations of an engine class, and what its docstrings
-- promise of them. A directory is given by its entries, a path in it by its name.
pub mod Engines
pub mod Laws
use bibi_core.Base.{◌≡◌, ◌≢◌, Option, List, [], Text, codes, ok, raise}
use bibi_core.Catalogue.{Entry}
use bibi_core.Catalogue.Laws.{IsMember, HasFiles, IsUsable}
use bibi_core.Stt.Models.{AudioChunk, AudioFormatSpec, Transcript, invalid_audio_format, Try}
use bibi_core.Stt.Audio.{Resampler, convert_chunks}

pub record SttEngine (E F : Type 0) : Type 0 where
  pub list_available : List Entry → List Text
  pub resolve_path : List Entry → Text → Try Text
  pub required_format : Option AudioFormatSpec
  pub transcribe : E → List AudioChunk → Try (Transcript F)

pub record IsSttEngine {E F : Type 0} (c : SttEngine E F) : Type 0 where
  -- "Names of models this provider can load"
  pub loads :
      (entries : List Entry) (name : Text)
      → HasFiles entries
      → IsUsable name
      → IsMember name (c.list_available entries)
      → (path : Text) × (c.resolve_path entries name ≡ ok path)
