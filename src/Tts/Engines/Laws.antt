-- ===== src/Tts/Engines/Laws.antt =====
-- What a manager lists, and what it can load.
use bibi_core.Base.{◌≡◌, refl, ◌∙◌, none, List, Text, Text-discrete, ok, lookup, true}
use bibi_core.Paths.{is_plain}
use bibi_core.Files.{FilePath}
use bibi_core.Catalogue.{Entry}
use bibi_core.Catalogue.Laws.{IsMember, HasFiles}
use bibi_core.Manager.{Manager}
use bibi_core.Manager.Laws.{IsManager, get_or_load_new}
use bibi_core.Providers.{TtsProvider, piper, mock}
use bibi_core.Tts.Models.{Try}
use bibi_core.Tts.Piper.Laws.{piper_available-load_engine}
use bibi_core.Tts.Service.{voice_error, key_error}
use bibi_core.Tts.Engines.{list_voices, load_voice, get_voice}

module _ {E : Type 0} (make : TtsProvider → Text → Try E) (directory : FilePath)
    (entries : List Entry) where
  -- A listed voice goes straight to the constructor of its class.
  pub list_voices-load_voice :
      (cls : TtsProvider) (name : Text)
      → HasFiles entries
      → IsMember name (list_voices cls entries)
      → load_voice make cls directory entries name ≡ make cls name
  unfolding list_voices load_voice
  list_voices-load_voice piper name files listed =
      piper_available-load_engine (make piper) directory entries name files listed
  list_voices-load_voice mock name files listed = refl

  -- A listed voice that is not loaded is handed out, if its constructor makes it.
  pub list_voices-get_voice :
      (cls : TtsProvider) (m : Manager E) (name : Text) (e : E)
      → HasFiles entries
      → IsMember name (list_voices cls entries)
      → is_plain name ≡ true
      → IsManager m
      → lookup Text-discrete name m.cache.engines ≡ none
      → make cls name ≡ ok e
      → (get_voice make cls directory entries m name).1 ≡ ok e
  unfolding get_voice
  list_voices-get_voice cls m name e files listed plain v fresh made =
      rw
        (get_or_load_new voice_error key_error (load_voice make cls directory entries) m name e v
          plain fresh (list_voices-load_voice cls name files listed ∙ made))
        refl
