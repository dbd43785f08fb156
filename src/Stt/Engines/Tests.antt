-- ===== src/Stt/Engines/Tests.antt =====
-- A directory with one model, an empty manager, and the providers of the configuration.
use bibi_core.Base.{
  ◌≡◌, ◌↔◌, refl, none, true, List, [], ◌∷◌, Text, Text-discrete, codes, ok, raise, lookup, ℕ,
  split_on, last_or, text_eq,
}
use bibi_core.Paths.{is_plain, path_name, parts, is_part}
use bibi_core.Catalogue.{Entry, text_leb, insert_sorted, sorted}
use bibi_core.Catalogue.Laws.{letter_first-IsUsable, IsMember}
use bibi_core.Manager.{Manager}
use bibi_core.Manager.Laws.{IsManager}
use bibi_core.Providers.{
  SttProvider, whispercpp, quoted, unknown_provider, provider_class, stt_provider_class,
  tts_provider_class,
}
use bibi_core.Stt.Models.{Try}
use bibi_core.Stt.Engines.{list_available, new_manager, get_model}
use bibi_core.Stt.Engines.Laws.{get_model_iff}

abbrev make : SttProvider → Text → Try ℕ
make cls path = ok 4

abbrev directory : List Entry
directory = record { name = codes "small.bin"; file = true } ∷ []

abbrev no_engines : Manager ℕ
no_engines = record {
  default = codes "small";
  cache = record { engines = []; refs = []; max_loaded = 1 };
}

no_engines_new : new_manager (codes "whispercpp") (codes "small") 1 ≡ ok (whispercpp, no_engines)
unfolding new_manager stt_provider_class provider_class lookup Text-discrete
no_engines_new = refl

no_provider :
    tts_provider_class (codes "say")
    ≡ raise (codes "Unknown TTS provider 'say'. Available: ['mock', 'piper']")
unfolding tts_provider_class provider_class unknown_provider quoted sorted insert_sorted text_leb
    lookup Text-discrete
no_provider = refl

no_engines-IsManager : IsManager no_engines
unfolding lookup
no_engines-IsManager = record { engines = tt; refs = tt; positive = λ j. λ e. cc }

small_plain : is_plain (codes "small") ≡ true
unfolding is_plain path_name parts is_part split_on last_or text_eq
small_plain = refl

none_loaded : lookup Text-discrete (codes "small") no_engines.cache.engines ≡ none
unfolding lookup
none_loaded = refl

small_loads :
    IsMember (codes "small") (list_available whispercpp directory)
    ↔ ((f : ℕ) × ((get_model make whispercpp directory no_engines (codes "small")).1 ≡ ok f))
small_loads =
    get_model_iff make directory no_engines (codes "small") (refl, tt)
      (letter_first-IsUsable 115 (codes "mall") refl) small_plain no_engines-IsManager none_loaded
      (λ p. (4, refl))
