-- ===== src/Stt/Listing/Tests.antt =====
-- A directory with one model.
use bibi_core.Base.{
  ◌≡◌, ◌↔◌, refl, true, none, List, [], ◌∷◌, Text, Text-discrete, codes, ok, lookup, ℕ, split_on,
  last_or, text_eq,
}
use bibi_core.Paths.{is_plain, path_name, parts, is_part}
use bibi_core.Catalogue.{Entry}
use bibi_core.Catalogue.Laws.{letter_first-IsUsable, IsMember}
use bibi_core.Manager.{Manager}
use bibi_core.Manager.Laws.{IsManager}
use bibi_core.Providers.{SttProvider, whispercpp}
use bibi_core.Stt.Models.{Try}
use bibi_core.Stt.Engines.{get_model}
use bibi_core.Stt.Listing.{list_models}
use bibi_core.Stt.Listing.Laws.{Counts, list_models_iff}

abbrev make : SttProvider → Text → Try ℕ
make cls path = ok 4

abbrev directory : List Entry
directory = record { name = codes "small.bin"; file = true } ∷ []

abbrev no_engines : Manager ℕ
no_engines = record {
  default = codes "small";
  cache = record { engines = []; refs = []; max_loaded = 1 };
}

no_engines-IsManager : IsManager no_engines
unfolding lookup
no_engines-IsManager = record { engines = tt; refs = tt; positive = λ j. λ e. cc }

small_plain : is_plain (codes "small") ≡ true
unfolding is_plain path_name parts is_part split_on last_or text_eq
small_plain = refl

none_loaded : lookup Text-discrete (codes "small") no_engines.cache.engines ≡ none
unfolding lookup
none_loaded = refl

list_models_iff_run :
    let answer = list_models whispercpp directory in
    (answer.status ≡ 200)
    × Counts (codes " available models") answer
    × (IsMember (codes "small") answer.payload
        ↔ ((f : ℕ) × ((get_model make whispercpp directory no_engines (codes "small")).1 ≡ ok f)))
list_models_iff_run =
    list_models_iff make directory no_engines (codes "small") (refl, tt)
      (letter_first-IsUsable 115 (codes "mall") refl) small_plain no_engines-IsManager none_loaded
      (λ p. (4, refl))
