-- ===== src/Manager/Laws.antt =====
-- What one uninterrupted request does to the manager.
use bibi_core.Base.{
  ◌≡◌, refl, ◌∙◌, ◌⊎◌, inl, inr, Text, Text-discrete, true, false, none, some, Result, ok, raise,
  lookup, IsDict, Bool-cases, Option-cases, Result-cases, if_pos,
}
use bibi_core.Base.Dict.Laws.{lookup-touched}
use bibi_core.Paths.{is_plain}
use bibi_core.Cache.{find_loaded, evict_if_over_capacity}
use bibi_core.Cache.Eviction.{evict_unchanged, evict-IsDict}
use bibi_core.Cache.Sections.{IsPositive, first_loaded, touched, lookup-inserted, insert_loaded_lem}
use bibi_core.Cache.Threads.Invariant.{touched_unchanged, touched_engines-IsDict}
use bibi_core.Manager.{Manager, store, get_or_load}

-- The dictionaries of a manager.
pub record IsManager {E : Type 0} (m : Manager E) : Type 0 where
  pub engines : IsDict Text-discrete m.cache.engines
  pub refs : IsDict Text-discrete m.cache.refs
  pub positive : IsPositive Text-discrete m.cache.refs

module _ {X E : Type 0} (not_found : Text → X) (key_error : X) (load : Text → Result X E) where
  -- A name that is no plain file name is refused before anything is read or loaded.
  pub get_or_load_refused :
      (m : Manager E) (name : Text)
      → is_plain name ≡ false
      → get_or_load not_found key_error load m name ≡ (m, raise (not_found name))
  unfolding get_or_load
  get_or_load_refused m name h = rw h

  -- A loaded engine is returned, whatever a load would give.
  get_or_load_hit :
      (m : Manager E) (name : Text) (e : E)
      → is_plain name ≡ true
      → lookup Text-discrete name m.cache.engines ≡ some e
      → get_or_load not_found key_error load m name
        ≡ (record m { cache = touched Text-discrete m.cache name e }, ok e)
  unfolding get_or_load find_loaded touched
  get_or_load_hit m name e plain h = rw plain (rw (h, find_loaded))

  pub get_or_load_failed :
      (m : Manager E) (name : Text) (x : X)
      → is_plain name ≡ true
      → lookup Text-discrete name m.cache.engines ≡ none
      → load name ≡ raise x
      → get_or_load not_found key_error load m name ≡ (m, raise x)
  unfolding get_or_load find_loaded store
  get_or_load_failed m name x plain h l = rw plain (rw (h, find_loaded) (rw l))

  pub get_or_load_new :
      (m : Manager E) (name : Text) (e : E)
      → IsManager m
      → is_plain name ≡ true
      → lookup Text-discrete name m.cache.engines ≡ none
      → load name ≡ ok e
      → get_or_load not_found key_error load m name ≡ (
        record m {
          cache =
              evict_if_over_capacity Text-discrete
                (touched Text-discrete m.cache name e)
                (some name);
        },
        ok e,
      )
  unfolding get_or_load find_loaded store first_loaded
  get_or_load_new m name e v plain h l =
      let first : first_loaded Text-discrete m.cache name e ≡ e = rw (h, first_loaded) in
      let fresh = rw first at (insert_loaded_lem Text-discrete m.cache name e v.engines).0 in
      rw plain (rw (h, find_loaded) (rw l (rw (fresh, store))))

  pub get_or_load_cases :
      (P : Manager E × Result X E → Type 0) (m : Manager E) (name : Text)
      → IsManager m
      → (is_plain name ≡ false → P (m, raise (not_found name)))
      → ((e : E)
          → lookup Text-discrete name m.cache.engines ≡ some e
          → P (record m { cache = touched Text-discrete m.cache name e }, ok e))
      → ((x : X)
          → is_plain name ≡ true
          → lookup Text-discrete name m.cache.engines ≡ none
          → load name ≡ raise x
          → P (m, raise x))
      → ((e : E)
          → lookup Text-discrete name m.cache.engines ≡ none
          → load name ≡ ok e
          → P (
            record m {
              cache =
                  evict_if_over_capacity Text-discrete
                    (touched Text-discrete m.cache name e)
                    (some name);
            },
            ok e,
          ))
      → P (get_or_load not_found key_error load m name)
  get_or_load_cases P m name v refused hit failed new = elim (Bool-cases (is_plain name)) [
    | inr bad ↦ rw (get_or_load_refused m name bad) (refused bad)
    | inl good ↦ elim (Option-cases (lookup Text-discrete name m.cache.engines)) [
      | inr (e, old) ↦ rw (get_or_load_hit m name e good old) (hit e old)
      | inl none_yet ↦ elim (Result-cases (load name)) [
        | inl (e, l) ↦ rw (get_or_load_new m name e v good none_yet l) (new e none_yet l)
        | inr (x, l) ↦ rw (get_or_load_failed m name x good none_yet l) (failed x good none_yet l)
      ]
    ]
  ]

  -- What a request for an engine leaves.
  pub record Got (m : Manager E) (name : Text) (r : Manager E × Result X E) : Type 0 where
    pub manager : IsManager r.0
    pub refs : r.0.cache.refs ≡ m.cache.refs
    pub default : r.0.default ≡ m.default
    pub cached : (e : E) → r.1 ≡ ok e → lookup Text-discrete name r.0.cache.engines ≡ some e
    pub kept : (e f : E) → r.1 ≡ ok e → lookup Text-discrete name m.cache.engines ≡ some f → e ≡ f
    pub failed :
        (x : X)
        → r.1 ≡ raise x
        → (r.0 ≡ m)
          × (((is_plain name ≡ false) × (x ≡ not_found name))
              ⊎ ((is_plain name ≡ true) × (load name ≡ raise x)))

  hit_Got :
      (m : Manager E) (name : Text)
      → IsManager m
      → (e : E) → lookup Text-discrete name m.cache.engines ≡ some e
      → Got m name (record m { cache = touched Text-discrete m.cache name e }, ok e)
  unfolding touched
  hit_Got m name v e old = record {
    manager = record {
      engines = touched_engines-IsDict Text-discrete m.cache name e v.engines;
      refs = v.refs;
      positive = v.positive;
    };
    refs = refl;
    default = refl;
    cached = λ f h.
        lookup-touched Text-discrete name name e m.cache.engines
        ∙ (rw
            (if_pos (Text-discrete name name) refl (some e)
              (lookup Text-discrete name m.cache.engines))
            (cc));
    kept = λ f g h old'. cc;
    failed = λ x h. cc;
  }

  new_Got :
      (m : Manager E) (name : Text)
      → IsManager m
      → (e : E) → lookup Text-discrete name m.cache.engines ≡ none
      → Got m name (
        record m {
          cache =
              evict_if_over_capacity Text-discrete
                (touched Text-discrete m.cache name e)
                (some name);
        },
        ok e,
      )
  new_Got m name v e new =
      let dict = touched_engines-IsDict Text-discrete m.cache name e v.engines in
      let (same, _) =
        evict_unchanged Text-discrete (touched Text-discrete m.cache name e) (some name) dict in
      let refs = same ∙ touched_unchanged Text-discrete m.cache name e in
      record {
        manager = record {
          engines =
              evict-IsDict Text-discrete (touched Text-discrete m.cache name e) (some name) dict;
          refs = rw refs v.refs;
          positive = rw refs v.positive;
        };
        refs = refs;
        default = refl;
        cached = λ f h. lookup-inserted Text-discrete m.cache name e v.engines ∙ (cc);
        kept = λ f g h old. cc;
        failed = λ x h. cc;
      }

  -- For a manager in order, _get_or_load keeps the dictionaries in order and the counts and the
  -- default as they are; if it returns, the engine is cached under the name and is the one
  -- cached before if there was one; if it raises, nothing has changed and the exception is that
  -- of a refused name or of the load.
  pub get_or_load_lem :
      (m : Manager E) (name : Text)
      → IsManager m
      → Got m name (get_or_load not_found key_error load m name)
  get_or_load_lem m name v =
      get_or_load_cases (Got m name) m name v
        (λ bad. record {
          manager = v;
          refs = refl;
          default = refl;
          cached = λ e h. cc;
          kept = λ e f h. cc;
          failed = λ x h. (refl, inl (bad, cc));
        })
        (λ e old. hit_Got m name v e old)
        (λ x good new l. record {
          manager = v;
          refs = refl;
          default = refl;
          cached = λ e h. cc;
          kept = λ e f h. cc;
          failed = λ y h. (refl, inr (good, cc));
        })
        (λ e new l. new_Got m name v e new)
