-- ===== src/Cache/Threads/Safety.antt =====
-- The sections at a reachable state: KeyErrors, and the engines in use.
use bibi_core.Base.{ℕ, ◌<◌, ◌≡◌, ap, subst, ◌∙◌, ite, none, some, arith, lookup, IsDict}
use bibi_core.Base.Dict.Laws.{touched-IsDict, lookup-touched, lookup-delete}
use bibi_core.Cache.{
  Cache, ref_count, evict_if_over_capacity, find_loaded, insert_loaded, pin, release, unload,
}
use bibi_core.Cache.Eviction.{evict_unchanged, lookup-evict_kept}
use bibi_core.Cache.Sections.{first_loaded, touched, insert_loaded_lem, is_kept_pinned, unpin_total}
use bibi_core.Cache.Threads.{
  using, System, Step, hit, miss, load_failed, loaded, handed_out, pinned, released, unloaded,
  Reach,
}
use bibi_core.Cache.Threads.Invariant.{
  Inv, Step-Inv, Reach-Inv, using_counted, found_touched, inserted_lem, released_lem,
}

module _ {K E : Type 0} (dec : Discrete K) where
  -- In every reachable state the second section of _get_or_load returns without a KeyError,
  -- whatever name and engine it is run for, and returns the engine that was cached under the
  -- name, if there was one, and else the one just loaded.
  pub insert_returns :
      {n most : ℕ} {s : System K E}
      → Reach dec n most s
      → (k : K) (e : E)
      → (c : Cache K E) × (insert_loaded dec s.cache k e ≡ some (c, first_loaded dec s.cache k e))
  insert_returns {s} r k e = (_, (insert_loaded_lem dec s.cache k e (Reach-Inv dec r).engines).0)

  -- In every reachable state, the finally clause of acquire_engine returns without a KeyError
  -- for every thread that is inside the with block.
  pub release_returns :
      {n most : ℕ} {s : System K E}
      → Reach dec n most s
      → (i : ℕ) (k : K) (e : E) → i < n
      → s.threads i ≡ using k e
      → (c : Cache K E) × (release dec s.cache k ≡ some c)
  unfolding release
  release_returns {s} r i k e lt at =
      let v = Reach-Inv dec r in
      let counted = using_counted dec i k e v lt at in
      let (rest, unpinned, _, _, _) = unpin_total dec s.cache.refs k counted v.refs v.positive in
      (evict_if_over_capacity dec (record s.cache { refs = rest }) none, rw (unpinned, release))

  lookup-touched_self :
      (c : Cache K E) (k j : K) (e : E)
      → lookup dec j (touched dec c k e).engines ≡ ite (dec j k) (some e) (lookup dec j c.engines)
  unfolding touched
  lookup-touched_self c k j e = lookup-touched dec k j e c.engines

  touched_keeps :
      (c : Cache K E) (k j : K) (e f : E)
      → lookup dec j c.engines ≡ some f
      → lookup dec j (touched dec c k (first_loaded dec c k e)).engines ≡ some f
  unfolding first_loaded
  touched_keeps c k j e f h = ground (arith, lookup-touched_self c k j (first_loaded dec c k e))

  hit_keeps :
      (c c' : Cache K E) (k j : K) (e f : E)
      → find_loaded dec c k ≡ some (c', e)
      → lookup dec j c.engines ≡ some f
      → lookup dec j c'.engines ≡ some f
  hit_keeps c c' k j e f h old =
      let (at, after) = found_touched dec c c' k e h in
      rw after (ground (arith, lookup-touched_self c k j e))

  unload_keeps :
      (c : Cache K E) (k j : K) (f : E)
      → 0 < ref_count dec c.refs j
      → lookup dec j c.engines ≡ some f
      → lookup dec j (unload dec c k).engines ≡ some f
  unfolding unload
  unload_keeps c k j f p h = ground (arith, lookup-delete dec k j c.engines)

  insert_keeps :
      (c c' : Cache K E) (k j : K) (e g f : E)
      → IsDict dec c.engines
      → 0 < ref_count dec c.refs j
      → insert_loaded dec c k e ≡ some (c', g)
      → lookup dec j c.engines ≡ some f
      → lookup dec j c'.engines ≡ some f
  unfolding touched
  insert_keeps c c' k j e g f d p h old =
      let (first, after) = inserted_lem dec c c' k e g d h in
      rw (after, first)
        (lookup-evict_kept dec (touched dec c k (first_loaded dec c k e)) (some k)
            (touched-IsDict dec k _ c.engines d) j (is_kept_pinned dec c.refs (some k) j p)
          ∙ touched_keeps c k j e f old)

  -- In every reachable state of the threads that share a manager, a cached engine whose name
  -- some thread is using inside acquire_engine stays cached under that name, the same engine,
  -- across any step of any thread as long as that thread stays in its with block: no load,
  -- release, eviction or unload drops or replaces it.
  pub pinned_survives :
      {n most : ℕ} {s t : System K E}
      → Reach dec n most s
      → Step dec n s t
      → (i : ℕ) (k : K) (e f : E) → i < n
      → s.threads i ≡ using k e
      → t.threads i ≡ using k e
      → lookup dec k s.cache.engines ≡ some f
      → lookup dec k t.cache.engines ≡ some f
  unfolding pin
  pinned_survives {s} r st i k e f lt before after old =
      keeps st (using_counted dec i k e (Reach-Inv dec r) lt before)
        (using_counted dec i k e (Step-Inv dec st (Reach-Inv dec r)) lt after) (Reach-Inv dec r)
    where
      keeps :
          {n : ℕ} {t : System K E}
          → Step dec n s t
          → 0 < ref_count dec s.cache.refs k
          → 0 < ref_count dec t.cache.refs k
          → Inv dec n s
          → lookup dec k t.cache.engines ≡ some f
      keeps (hit j l c g _ _ h) p q v = hit_keeps s.cache c l k g f h old
      keeps (miss j l _ _ _) p q v = old
      keeps (load_failed j l _ _) p q v = old
      keeps (loaded j l g g' c _ _ h) p q v = insert_keeps s.cache c l k g g' f v.engines p h old
      keeps (handed_out j l g _ _) p q v = old
      keeps (pinned j l g _ _) p q v = old
      keeps (released j l g c lt' at h) p q v =
          let counted = using_counted dec j l g v lt' at in
          let (rest, _, left) = released_lem dec s.cache c l counted v.refs v.positive h in
          let lean = record s.cache { refs = rest } in
          let (same, _) = evict_unchanged dec lean none v.engines in
          let still : 0 < ref_count dec rest k =
            subst (λ m. 0 < ref_count dec m k) (ap (λ x. x.refs) left ∙ same) q in
          rw left (
            lookup-evict_kept dec lean none v.engines k (is_kept_pinned dec rest none k still)
            ∙ old)
      keeps (unloaded j l _ _) p q v = unload_keeps s.cache l k f p old
