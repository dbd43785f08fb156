-- ===== src/Cache/Threads/Window.antt =====
-- The window that `acquire_engine` leaves open between two sections.
use bibi_core.Base.{
  ℕ, ◌-◌, ◌<◌, ◌≡◌, refl, sym, ap, subst, ◌≢◌, if_pos, if_neg, none, some, List, [], ◌∷◌, ◌++◌,
  arith, length, lookup, IsDict, ℕ_discrete, length-append,
}
use bibi_core.Base.Dict.Laws.{touched-IsDict, lookup-append, delete-absent}
use bibi_core.Cache.{Cache, ref_count, is_kept, evict_if_over_capacity, insert_loaded, pin}
use bibi_core.Cache.Idle.{drop_idle-zero, drop_idle-cons_idle}
use bibi_core.Cache.Eviction.{evict_if_over_capacity-drop_idle}
use bibi_core.Cache.Sections.{first_loaded, touched, insert_loaded_lem, not_kept}
use bibi_core.Cache.Threads.{loading, got, using, System, loaded, pinned, Reach, next}
use bibi_core.Cache.Threads.Invariant.{Reach-Inv}

module _ {K E : Type 0} (dec : Discrete K) where
  evicts_oldest :
      (c : Cache K E) (k l : K) (e g : E) (es : List (K × E))
      → IsDict dec c.engines
      → c.engines ≡ (k, e) ∷ es
      → c.max_loaded ≡ length c.engines
      → k ≢ l
      → ref_count dec c.refs k ≡ 0
      → lookup dec l c.engines ≡ none
      → lookup dec k (evict_if_over_capacity dec (touched dec c l g) (some l)).engines ≡ none
  unfolding touched lookup
  evicts_oldest c k l e g es d all full ne unused new =
      let absent : lookup dec k es ≡ none = (subst (IsDict dec) all d).0 in
      let order : (touched dec c l g).engines ≡ (k, e) ∷ (es ++ (l, g) ∷ []) =
        rw (delete-absent dec l c.engines new, all) in
      let one_over : length (touched dec c l g).engines - c.max_loaded ≡ 1 =
        omega (arith, ap length order, full, ap length all, length-append es ((l, g) ∷ [])) in
      rw
        (
          evict_if_over_capacity-drop_idle dec (touched dec c l g) (some l)
              (touched-IsDict dec l g c.engines d),
          one_over,
          order,
          drop_idle-cons_idle (is_kept dec c.refs (some l)) 0 k e _
              (not_kept dec c.refs k l ne unused),
          drop_idle-zero,
        )
        (ground (arith, lookup-append dec k es ((l, g) ∷ [])))

  -- If a thread has been given the engine of the oldest entry of a full cache by _get_or_load
  -- and has not raised the count yet, nobody else uses that name, and another thread is loading
  -- a name that is not cached, then a state is reachable in which the first thread is inside
  -- its with block and the name of its engine is not cached.
  pub acquire_window :
      {n most : ℕ} {s : System K E}
      → Reach dec n most s
      → (i j : ℕ) (k l : K) (e g : E) (es : List (K × E)) → i < n
      → j < n
      → i ≢ j
      → k ≢ l
      → s.threads i ≡ got k e
      → s.threads j ≡ loading l
      → s.cache.engines ≡ (k, e) ∷ es
      → s.cache.max_loaded ≡ length s.cache.engines
      → ref_count dec s.cache.refs k ≡ 0
      → lookup dec l s.cache.engines ≡ none
      → (t : System K E) × Reach dec n most t
        × (t.threads i ≡ using k e)
        × (lookup dec k t.cache.engines ≡ none)
  unfolding first_loaded pin
  acquire_window {s} r i j k l e g es lt lt' ne other at at' all full unused new =
      let v = Reach-Inv dec r in
      let c = evict_if_over_capacity dec (touched dec s.cache l g) (some l) in
      let first : first_loaded dec s.cache l g ≡ g = rw (new, first_loaded) in
      let inserted : insert_loaded dec s.cache l g ≡ some (c, g) =
        rw first at (insert_loaded_lem dec s.cache l g v.engines).0 in
      (
        _,
        next (next r (loaded j l g g c lt' at' inserted))
            (pinned i k e lt (rw (if_neg (ℕ_discrete j i) (λ p. ne (sym p))) at)),
        if_pos (ℕ_discrete i i) refl _ _,
        evicts_oldest s.cache k l e g es v.engines all full other unused new,
      )
