-- ===== src/Stt/Contract/Laws.antt =====
-- What the service gets from any engine class that keeps the contract.
use bibi_core.Base.{◌≡◌, refl, true, none, List, Text, Text-discrete, codes, ok, lookup, ◌>>=◌}
use bibi_core.Paths.{is_plain}
use bibi_core.Catalogue.{Entry}
use bibi_core.Catalogue.Laws.{IsMember, HasFiles, IsUsable}
use bibi_core.Manager.{Manager, get_or_load}
use bibi_core.Manager.Laws.{IsManager, get_or_load_new}
use bibi_core.Stt.Models.{model_not_found, unexpected, Try}
use bibi_core.Stt.Contract.{SttEngine, IsSttEngine}

module _ {E F : Type 0} (c : SttEngine E F) where
  -- A listed model that is not loaded is handed out, if the constructor takes its path.
  listed_served :
      (make : Text → Try E) (entries : List Entry) (m : Manager E) (name : Text)
      → IsSttEngine c
      → HasFiles entries
      → IsUsable name
      → IsMember name (c.list_available entries)
      → is_plain name ≡ true
      → IsManager m
      → lookup Text-discrete name m.cache.engines ≡ none
      → ((path : Text) → (e : E) × (make path ≡ ok e))
      → (e : E) × ((get_or_load model_not_found
            (unexpected (codes "KeyError"))
            (λ n. c.resolve_path entries n >>= make)
            m
            name).1
          ≡ ok e)
  listed_served make entries m name law files usable listed plain v fresh makes =
      let (path, resolved) = law.loads entries name files usable listed in
      let (e, made) = makes path in
      let loaded : (c.resolve_path entries name >>= make) ≡ ok e = rw (resolved, made) refl in
      (
        e,
        rw
            (get_or_load_new model_not_found (unexpected (codes "KeyError"))
              (λ n. c.resolve_path entries n >>= make) m name e v plain fresh loaded)
            refl,
      )
