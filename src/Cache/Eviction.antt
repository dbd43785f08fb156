-- ===== src/Cache/Eviction.antt =====
-- What `_evict_if_over_capacity` leaves: the loop over the snapshot of the keys.
use bibi_core.Base.{
  ℕ, suc, ◌-◌, ◌≤◌, ◌≡◌, refl, subst, ◌≢◌, ◌⊎◌, inl, inr, true, false, Option, none, List, [], ◌∷◌,
  ◌++◌, arith, leb, length, length-append, keys, lookup, delete, IsDict, append_assoc, Bool-cases,
  All, leb→le, if_pos,
}
use bibi_core.Base.Dict.Laws.{delete-IsDict, delete-absent, delete-append}
use bibi_core.Cache.Idle.{
  drop_idle, drop_idle-zero, drop_idle-nil, drop_idle-cons_kept, drop_idle-cons_idle,
  length-drop_idle, length-drop_idle-le, lookup-drop_idle, lookup-drop_idle-cases, drop_idle-IsDict,
}
use bibi_core.Cache.{Cache, is_kept, evict_loop, evict_if_over_capacity}

module _ {K : Type 0} (dec : Discrete K) where
  module _ {E : Type 0} where
    middle : (xs ys : List (K × E)) (k : K) (e : E) → lookup dec k (xs ++ (k, e) ∷ ys) ≢ none
    unfolding lookup
    middle [] ys k e h = ground arith
    middle ((j, w) ∷ xs) ys k e h = ground (arith, middle xs ys k e)

    IsDict-middle :
        (xs ys : List (K × E)) (k : K) (e : E)
        → IsDict dec (xs ++ (k, e) ∷ ys)
        → (lookup dec k xs ≡ none) × (lookup dec k ys ≡ none)
    unfolding lookup
    IsDict-middle [] ys k e d = (refl, d.0)
    IsDict-middle ((j, w) ∷ xs) ys k e d =
        ground (arith, IsDict-middle xs ys k e d.1, middle xs ys k e)

    delete-middle :
        (xs ys : List (K × E)) (k : K) (e : E)
        → IsDict dec (xs ++ (k, e) ∷ ys)
        → delete dec k (xs ++ (k, e) ∷ ys) ≡ xs ++ ys
    unfolding delete
    delete-middle xs ys k e d =
        let (left, right) = IsDict-middle xs ys k e d in
        rw (
          delete-append dec k xs ((k, e) ∷ ys),
          delete-absent dec k xs left,
          if_pos (dec k k) refl,
          delete-absent dec k ys right,
        )

    module _ (refs : List (K × ℕ)) (most : ℕ) (protect : Option K) where
      -- The loop over the rest `ys` of the snapshot, when `xs` has been kept.
      evict_loop-drop_idle :
          (xs ys : List (K × E))
          → IsDict dec (xs ++ ys)
          → evict_loop dec refs most protect (keys ys) (xs ++ ys)
            ≡ xs ++ drop_idle (is_kept dec refs protect) (length (xs ++ ys) - most) ys
      unfolding evict_loop
      evict_loop-drop_idle xs [] d =
          rw (drop_idle-nil (is_kept dec refs protect) (length (xs ++ []) - most))
      evict_loop-drop_idle xs ((k, e) ∷ ys) d =
          elim (Bool-cases (leb (length (xs ++ (k, e) ∷ ys)) most)) [
            | inl fits ↦
                let none_over : length (xs ++ (k, e) ∷ ys) - most ≡ 0 =
                  omega (arith, leb→le _ _ fits) in
                rw (fits, none_over, drop_idle-zero)
            | inr over ↦ elim (Bool-cases (is_kept dec refs protect k)) [
              | inl stays ↦
                  let same : (xs ++ (k, e) ∷ []) ++ ys ≡ xs ++ (k, e) ∷ ys =
                    append_assoc xs ((k, e) ∷ []) ys in
                  let later = evict_loop-drop_idle (xs ++ (k, e) ∷ []) ys (rw same d) in
                  rw (over, stays, drop_idle-cons_kept _ _ k e ys stays)
                    (rw (same, append_assoc) at later)
              | inr goes ↦
                  let (left, right) = IsDict-middle xs ys k e d in
                  let one_over : length (xs ++ (k, e) ∷ ys) - most
                      ≡ suc (length (xs ++ ys) - most) =
                    ground (arith, length-append xs ((k, e) ∷ ys), length-append xs ys) in
                  rw
                    (
                      over,
                      one_over,
                      goes,
                      delete-middle xs ys k e d,
                      drop_idle-cons_idle _ _ k e ys goes,
                    )
                    (evict_loop-drop_idle xs ys (
                      subst (IsDict dec) (delete-middle xs ys k e d)
                        (delete-IsDict dec k (xs ++ (k, e) ∷ ys) d)))
            ]
          ]

  -- When no name stands twice among the engines, _evict_if_over_capacity drops exactly the
  -- oldest entries that are neither pinned nor protected, one for each entry over the capacity
  -- as far as there are such; the others keep their order and the counts stay.
  pub evict_if_over_capacity-drop_idle :
      {E : Type 0} (c : Cache K E) (protect : Option K)
      → IsDict dec c.engines
      → evict_if_over_capacity dec c protect ≡ record c {
        engines =
            drop_idle (is_kept dec c.refs protect) (length c.engines - c.max_loaded) c.engines;
      }
  unfolding evict_if_over_capacity
  evict_if_over_capacity-drop_idle c protect d =
      elim (Bool-cases (leb (length c.engines) c.max_loaded)) [
        | inl fits ↦
            let none_over : length c.engines - c.max_loaded ≡ 0 = omega (arith, leb→le _ _ fits) in
            rw (fits, none_over, drop_idle-zero)
        | inr over ↦ rw (over, evict_loop-drop_idle c.refs c.max_loaded protect [] c.engines d)
      ]

  module _ {E : Type 0} (c : Cache K E) (protect : Option K) (d : IsDict dec c.engines) where
    -- After eviction the engines fit the capacity, or every one that is left is pinned or protected.
    pub evict_capacity :
        (length (evict_if_over_capacity dec c protect).engines ≤ c.max_loaded)
        ⊎ All
            (λ e. is_kept dec c.refs protect e.0 ≡ true)
            (evict_if_over_capacity dec c protect).engines
    evict_capacity = rw (evict_if_over_capacity-drop_idle c protect d) (
        ground (
          arith,
          length-drop_idle (is_kept dec c.refs protect) (length c.engines - c.max_loaded) c.engines,
        ))

    pub evict-length-le : length (evict_if_over_capacity dec c protect).engines ≤ length c.engines
    evict-length-le = rw (evict_if_over_capacity-drop_idle c protect d) (
        length-drop_idle-le (is_kept dec c.refs protect) (length c.engines - c.max_loaded)
          c.engines)

    pub lookup-evict_kept :
        (k : K)
        → is_kept dec c.refs protect k ≡ true
        → lookup dec k (evict_if_over_capacity dec c protect).engines ≡ lookup dec k c.engines
    lookup-evict_kept k h =
        rw (evict_if_over_capacity-drop_idle c protect d)
          (lookup-drop_idle dec (is_kept dec c.refs protect) _ c.engines k h)

    pub evict-IsDict : IsDict dec (evict_if_over_capacity dec c protect).engines
    evict-IsDict =
        rw (evict_if_over_capacity-drop_idle c protect d)
          (drop_idle-IsDict dec (is_kept dec c.refs protect) _ c.engines d)

    pub evict_unchanged :
        ((evict_if_over_capacity dec c protect).refs ≡ c.refs)
        × ((evict_if_over_capacity dec c protect).max_loaded ≡ c.max_loaded)
    evict_unchanged = rw (evict_if_over_capacity-drop_idle c protect d) (refl, refl)

    -- What eviction takes is neither pinned nor protected.
    pub lookup-evict_cases :
        (k : K)
        → (lookup dec k (evict_if_over_capacity dec c protect).engines ≡ lookup dec k c.engines)
          ⊎ ((is_kept dec c.refs protect k ≡ false)
              × (lookup dec k (evict_if_over_capacity dec c protect).engines ≡ none))
    lookup-evict_cases k =
        rw (evict_if_over_capacity-drop_idle c protect d)
          (lookup-drop_idle-cases dec (is_kept dec c.refs protect) _ c.engines k d)
