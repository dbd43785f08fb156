-- ===== src/Cache/Sections.antt =====
-- What each critical section does, on every branch.
use bibi_core.Base.{
  ℕ, zero, suc, ◌-◌, ◌<◌, ◌≡◌, refl, ◌∙◌, ◌≢◌, inl, inr, ite, if_pos, true, false, Option, none,
  some, List, [], ◌∷◌, ◌++◌, arith, lookup, insert, delete, move_to_end, IsDict, Option-cases,
}
use bibi_core.Base.Dict.Laws.{
  lookup-insert, lookup-delete, insert-IsDict, delete-IsDict, touched-IsDict, lookup-touched,
  move_to_end_lem,
}
use bibi_core.Cache.{
  Cache, ref_count, is_protected, is_kept, evict_if_over_capacity, keep_first, returned,
  insert_loaded, unpin,
}
use bibi_core.Cache.Eviction.{lookup-evict_kept}

module _ {K : Type 0} (dec : Discrete K) where
  is_protected_self : (k : K) (refs : List (K × ℕ)) → is_kept dec refs (some k) k ≡ true
  unfolding is_kept is_protected
  is_protected_self k refs = ground arith

  pub is_kept_pinned :
      (refs : List (K × ℕ)) (protect : Option K) (k : K)
      → 0 < ref_count dec refs k
      → is_kept dec refs protect k ≡ true
  unfolding is_kept
  is_kept_pinned refs protect k h = ground arith

  pub not_kept :
      (refs : List (K × ℕ)) (k l : K)
      → k ≢ l
      → ref_count dec refs k ≡ 0
      → is_kept dec refs (some l) k ≡ false
  unfolding is_kept is_protected
  not_kept refs k l h e = ground arith

  delete-insert :
      {V : Type 0} (k : K) (v : V) (m : List (K × V))
      → delete dec k (insert dec k v m) ≡ delete dec k m
  unfolding insert delete
  delete-insert k v [] = ground arith
  delete-insert k v ((j, w) ∷ m) = ground (arith, delete-insert k v m)

  module _ {E : Type 0} where
    -- The engine that a section returns: the one that is loaded already, if there is one.
    unfoldable pub first_loaded : Cache K E → K → E → E
    first_loaded c k e = elim (lookup dec k c.engines) [ none ↦ e | some f ↦ f ]

    -- The cache with the key moved to the end, before eviction.
    unfoldable pub touched : Cache K E → K → E → Cache K E
    touched c k e = record c { engines = delete dec k c.engines ++ (k, e) ∷ [] }

    move_to_end-keep_first :
        (c : Cache K E) (k : K) (e : E)
        → move_to_end dec k (keep_first dec c.engines k e)
          ≡ some (touched c k (first_loaded c k e)).engines
    unfolding keep_first first_loaded touched
    move_to_end-keep_first c k e = elim (Option-cases (lookup dec k c.engines)) [
      | inl new ↦ ground (
        arith,
        move_to_end_lem dec k e (insert dec k e c.engines),
        lookup-insert dec k k e c.engines,
        delete-insert k e c.engines,
      )
      | inr (f, old) ↦ ground (arith, move_to_end_lem dec k f c.engines old)
    ]

    returned_lem :
        (c : Cache K E) (k : K) (f : E)
        → lookup dec k c.engines ≡ some f
        → returned dec c k ≡ some (c, f)
    unfolding returned
    returned_lem c k f h = rw (h, returned)

    pub lookup-inserted :
        (c : Cache K E) (k : K) (f : E)
        → IsDict dec c.engines
        → lookup dec k (evict_if_over_capacity dec (touched c k f) (some k)).engines ≡ some f
    unfolding touched
    lookup-inserted c k f d =
        lookup-evict_kept dec (touched c k f) (some k) (touched-IsDict dec k f c.engines d) k
          (is_protected_self k c.refs)
        ∙ (rw (lookup-touched dec k k f c.engines) (if_pos (dec k k) refl _ _))

    -- When no name stands twice among the engines, the second section of _get_or_load never
    -- meets a KeyError and returns the engine that landed first, which it leaves in the cache.
    pub insert_loaded_lem :
        (c : Cache K E) (k : K) (e : E)
        → IsDict dec c.engines
        → let c' = evict_if_over_capacity dec (touched c k (first_loaded c k e)) (some k) in
          (insert_loaded dec c k e ≡ some (c', first_loaded c k e))
          × (lookup dec k c'.engines ≡ some (first_loaded c k e))
    unfolding insert_loaded touched
    insert_loaded_lem c k e d =
        let found = lookup-inserted c k (first_loaded c k e) d in
        (rw (move_to_end-keep_first c k e, insert_loaded) (returned_lem _ k _ found), found)

  -- Only the names of engines in use are counted.
  abbrev pub IsPositive : List (K × ℕ) → Type 0
  IsPositive refs = (j : K) → lookup dec j refs ≢ some 0

  module _ (refs : List (K × ℕ)) (k : K) where
    -- `pin` adds one to the count of its key, and to no other.
    pub ref_count-insert :
        (n : ℕ) (j : K)
        → ref_count dec (insert dec k n refs) j ≡ ite (dec j k) n (ref_count dec refs j)
    unfolding ref_count
    ref_count-insert n j = ground (arith, lookup-insert dec k j n refs)

    pub insert-IsPositive : (n : ℕ) → 0 < n → IsPositive refs → IsPositive (insert dec k n refs)
    insert-IsPositive n h p j = ground (arith, lookup-insert dec k j n refs, p j)

    unpin_lem :
        (n : ℕ)
        → lookup dec k refs ≡ some (suc (suc n))
        → unpin dec refs k ≡ some (insert dec k (suc n) refs)
    unfolding unpin
    unpin_lem n h = ground arith

    unpin_last :
        lookup dec k refs ≡ some 1 → unpin dec refs k ≡ some (delete dec k (insert dec k 0 refs))
    unfolding unpin
    unpin_last h = ground arith

    -- What `release` does to the counts: no KeyError for a key that is counted, one less for it, and
    -- the others as before.
    pub unpin_total :
        0 < ref_count dec refs k
        → IsDict dec refs
        → IsPositive refs
        → (rest : List (K × ℕ)) × (unpin dec refs k ≡ some rest)
          × IsDict dec rest
          × IsPositive rest
          × ((j : K)
              → ref_count dec rest j
                ≡ ite (dec j k) (ref_count dec refs k - 1) (ref_count dec refs j))
    unfolding ref_count
    unpin_total h d p = elim (Option-cases (lookup dec k refs)) [
      | inl e ↦ absurd (ground arith)
      | inr (zero, e) ↦ absurd (p k e)
      | inr (suc zero, e) ↦ (
        delete dec k (insert dec k 0 refs),
        unpin_last e,
        delete-IsDict dec k _ (insert-IsDict dec k 0 refs d),
        λ j.
            ground (
              arith,
              lookup-delete dec k j (insert dec k 0 refs),
              lookup-insert dec k j 0 refs,
              p j,
            ),
        λ j.
            ground
              (arith, lookup-delete dec k j (insert dec k 0 refs), lookup-insert dec k j 0 refs),
      )
      | inr (suc (suc n), e) ↦ (
        insert dec k (suc n) refs,
        unpin_lem n e,
        insert-IsDict dec k (suc n) refs d,
        insert-IsPositive (suc n) (omega arith) p,
        λ j. ground (arith, lookup-insert dec k j (suc n) refs),
      )
    ]
