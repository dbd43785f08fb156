-- ===== src/Stt/Engines/Laws.antt =====
-- What a manager lists, and what it can load.
use bibi_core.Base.{
  raise_ok, Result-cases, ◌≡◌, ◌↔◌, refl, inl, inr, Bool, true, none, List, ◌++◌, Text,
  Text-discrete, codes, ok, lookup, Bool-cases, bind_returns,
}
use bibi_core.Paths.{is_plain}
use bibi_core.Catalogue.{Entry, is_file}
use bibi_core.Catalogue.Laws.{IsMember, HasFiles, IsUsable, whisper_available_iff}
use bibi_core.Manager.{Manager}
use bibi_core.Manager.Laws.{IsManager, get_or_load_new, get_or_load_failed}
use bibi_core.Providers.{SttProvider, whispercpp}
use bibi_core.Stt.Models.{model_not_found, unexpected, Try}
use bibi_core.Stt.Whisper.{resolve_path}
use bibi_core.Stt.Engines.{list_available, path_of, load_engine, get_model}

resolve_path_inv :
    (found : Text → Bool) (name path : Text)
    → resolve_path found name ≡ ok path
    → resolve_path found name ≡ ok (name ++ codes ".bin")
unfolding resolve_path
resolve_path_inv found name path h = elim (Bool-cases (found (name ++ codes ".bin"))) [
  | inl there ↦ rw there refl
  | inr missing ↦ absurd (cc)
]

module _ {E : Type 0} (make : SttProvider → Text → Try E) (entries : List Entry) where
  -- For whisper.cpp over a directory whose entries are files, a manager in order, and a name
  -- that is plain, usable and not cached, when the constructor takes
  -- every path, the manager lists the name exactly if it can load it.
  pub get_model_iff :
      (m : Manager E) (name : Text)
      → HasFiles entries
      → IsUsable name
      → is_plain name ≡ true
      → IsManager m
      → lookup Text-discrete name m.cache.engines ≡ none
      → ((p : Text) → (e : E) × (make whispercpp p ≡ ok e))
      → IsMember name (list_available whispercpp entries)
        ↔ ((f : E) × ((get_model make whispercpp entries m name).1 ≡ ok f))
  unfolding list_available get_model load_engine path_of
  get_model_iff m name files usable plain v fresh makes =
      let not_there = unexpected (codes "KeyError") in
      let load = load_engine make whispercpp entries in
      let listed = whisper_available_iff entries name files usable in
      (
        λ h.
            let (e, made) = makes (name ++ codes ".bin") in
            let loaded : load name ≡ ok e = rw (listed.0 h, made) refl in
            (
              e,
              rw (get_or_load_new model_not_found not_there load m name e v plain fresh loaded)
                  refl,
            ),
        λ got. elim (Result-cases (load name)) [
          | inl (e, loaded) ↦
              let (path, found, _) =
                bind_returns (resolve_path (is_file entries) name) (make whispercpp) loaded in
              listed.1 (resolve_path_inv (is_file entries) name path found)
          | inr (x, failed) ↦
              let same =
                get_or_load_failed model_not_found not_there load m name x plain fresh failed in
              absurd (raise_ok (rw same at got.1))
        ],
      )
