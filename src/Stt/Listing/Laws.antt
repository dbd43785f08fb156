-- ===== src/Stt/Listing/Laws.antt =====
-- What a client may conclude from the list of the models.
use bibi_core.Base.{
  ◌≡◌, ◌↔◌, refl, true, none, List, ◌++◌, Text, Text-discrete, codes, ok, lookup, length,
}
use bibi_core.Base.Decimal.{decimal, read_digits, read-decimal}
use bibi_core.Paths.{is_plain}
use bibi_core.Catalogue.{Entry}
use bibi_core.Catalogue.Laws.{IsMember, HasFiles, IsUsable}
use bibi_core.Manager.{Manager}
use bibi_core.Manager.Laws.{IsManager}
use bibi_core.Providers.{SttProvider, whispercpp}
use bibi_core.Stt.Models.{Try}
use bibi_core.Stt.Engines.{get_model}
use bibi_core.Stt.Engines.Laws.{get_model_iff}
use bibi_core.Stt.Listing.{ApiResponse, list_models}

-- The number in front of a message.
abbrev pub Counts : Text → ApiResponse (List Text) → Type 0
Counts words r =
    (digits : Text) × (r.message ≡ digits ++ words) × (read_digits 0 digits ≡ length r.payload)

module _ {E : Type 0} (make : SttProvider → Text → Try E) (entries : List Entry) where
  -- GET /models answers 200, with the number of the models in its message. For whisper.cpp over
  -- a directory whose entries are files, when the constructor takes every path, a name that is
  -- plain, usable and not cached in a manager in order is in the answer
  -- exactly if a request for it gets an engine.
  pub list_models_iff :
      (m : Manager E) (name : Text)
      → HasFiles entries
      → IsUsable name
      → is_plain name ≡ true
      → IsManager m
      → lookup Text-discrete name m.cache.engines ≡ none
      → ((p : Text) → (e : E) × (make whispercpp p ≡ ok e))
      → let answer = list_models whispercpp entries in
        (answer.status ≡ 200)
        × Counts (codes " available models") answer
        × (IsMember name answer.payload
            ↔ ((f : E) × ((get_model make whispercpp entries m name).1 ≡ ok f)))
  unfolding list_models
  list_models_iff m name files usable plain v fresh makes = (
    refl,
    (decimal (length (list_models whispercpp entries).payload), refl, read-decimal _),
    get_model_iff make entries m name files usable plain v fresh makes,
  )
