-- ===== src/Cache/Threads/Refinement.antt =====
-- The steps of the threads as events of the service.
use bibi_core.Base.{
  ℕ, ◌<◌, ◌≡◌, refl, sym, ap, ◌∙◌, ◌≢◌, ◌⊎◌, inl, inr, false, Option, none, some, List, arith,
  lookup, IsDict, Bool-cases, ltb,
}
use bibi_core.Base.Dict.Laws.{touched-IsDict, lookup-touched, lookup-delete}
use bibi_core.Cache.{
  Cache, ref_count, is_kept, evict_if_over_capacity, insert_loaded, pin, release, unload,
}
use bibi_core.Cache.Eviction.{evict_unchanged, lookup-evict_cases}
use bibi_core.Cache.Sections.{first_loaded, touched, lookup-inserted}
use bibi_core.Cache.Threads.{
  Phase, idle, loading, got, using, System, moved, Step, hit, miss, load_failed, loaded, handed_out,
  pinned, released, unloaded, Reach,
}
use bibi_core.Cache.Threads.Users.{uses, users-update}
use bibi_core.Cache.Threads.Invariant.{
  Inv, Step-Inv, Reach-Inv, using_counted, found_touched, inserted_lem, released_lem,
}
use bibi_core.Cache.Threads.Leases.{view, SameHeld, Serve, stay, take, give, fill, forget}

module _ {K : Type 0} (dec : Discrete K) where
  idle_unkept :
      (refs : List (K × ℕ)) (protect : Option K) (j : K)
      → is_kept dec refs protect j ≡ false
      → ref_count dec refs j ≡ 0
  unfolding is_kept
  idle_unkept refs protect j h = ground arith

module _ {K E : Type 0} (dec : Discrete K) where
  -- A thread that was and is not using an engine leaves the leases alone.
  held_same :
      {n : ℕ} (s : System K E) (i : ℕ) (c : Cache K E) (p p' : Phase K E)
      → i < n
      → s.threads i ≡ p
      → ((j : K) → uses dec j p ≡ 0)
      → ((j : K) → uses dec j p' ≡ 0)
      → SameHeld (view dec n s) (view dec n (moved s c i p'))
  held_same {n} s i c p p' lt at before after j =
      omega (arith, users-update dec j n i s.threads p' lt, ap (uses dec j) at, before j, after j)

  cached_touched :
      (c : Cache K E) (k : K) (e : E)
      → lookup dec k c.engines ≡ some e
      → (j : K) → lookup dec j (touched dec c k e).engines ≡ lookup dec j c.engines
  unfolding touched
  cached_touched c k e h j = ground (arith, lookup-touched dec k j e c.engines)

  -- Another name than the one that was loaded.
  inserted_shed :
      (c : Cache K E) (k j : K) (e : E)
      → IsDict dec c.engines
      → j ≢ k
      → let c' = evict_if_over_capacity dec (touched dec c k e) (some k) in
        (lookup dec j c'.engines ≡ lookup dec j c.engines)
        ⊎ ((ref_count dec c.refs j ≡ 0) × (lookup dec j c'.engines ≡ none))
  unfolding touched
  inserted_shed c k j e d ne =
      let t = touched dec c k e in
      elim (lookup-evict_cases dec t (some k) (touched-IsDict dec k e c.engines d) j) [
        | inl same ↦ inl (same ∙ ground (arith, lookup-touched dec k j e c.engines))
        | inr (out, gone) ↦ inr (idle_unkept dec c.refs (some k) j out, gone)
      ]

  loaded_Serve :
      {n : ℕ} {s : System K E} (i : ℕ) (k : K) (e f : E) (c : Cache K E)
      → Inv dec n s
      → i < n
      → s.threads i ≡ loading k
      → insert_loaded dec s.cache k e ≡ some (c, f)
      → Serve dec (view dec n s) (view dec n (moved s c i (got k f)))
  unfolding uses first_loaded
  loaded_Serve {n} {s} i k e f c v lt at h =
      let (first, after) = inserted_lem dec s.cache c k e f v.engines h in
      let held = held_same s i c (loading k) (got k f) lt at (λ j. refl) (λ j. refl) in
      fill k f held (rw after (lookup-inserted dec s.cache k f v.engines))
        (λ g old. ground (arith, first))
        (λ j ne. elim (inserted_shed s.cache k j f v.engines ne) [
          | inl same ↦ inl (rw after same)
          | inr (unused, gone) ↦ inr (held j ∙ (sym (v.counts j) ∙ unused), rw after gone)
        ])

  released_Serve :
      {n : ℕ} {s : System K E} (i : ℕ) (k : K) (e : E) (c : Cache K E)
      → Inv dec n s
      → Inv dec n (moved s c i idle)
      → i < n
      → s.threads i ≡ using k e
      → release dec s.cache k ≡ some c
      → Serve dec (view dec n s) (view dec n (moved s c i idle))
  unfolding uses
  released_Serve {n} {s} i k e c v w lt at r =
      let counted = using_counted dec i k e v lt at in
      let (rest, _, after) = released_lem dec s.cache c k counted v.refs v.positive r in
      let lean = record s.cache { refs = rest } in
      let (refs, _) = evict_unchanged dec lean none v.engines in
      give k (omega (arith, counted, v.counts k))
        (λ j. ground (arith, users-update dec j n i s.threads idle lt))
        (λ j. elim (lookup-evict_cases dec lean none v.engines j) [
          | inl same ↦ inl (rw after same)
          | inr (out, gone) ↦ inr (
            sym (w.counts j) ∙ (rw (after, refs) (idle_unkept dec rest none j out)),
            rw after gone,
          )
        ])

  unloaded_Serve :
      {n : ℕ} {s : System K E} (i : ℕ) (k : K)
      → Inv dec n s
      → i < n
      → s.threads i ≡ idle
      → Serve dec (view dec n s) (view dec n (moved s (unload dec s.cache k) i idle))
  unfolding uses unload
  unloaded_Serve {n} {s} i k v lt at =
      let held = held_same s i (unload dec s.cache k) idle idle lt at (λ j. refl) (λ j. refl) in
      elim (Bool-cases (ltb 0 (ref_count dec s.cache.refs k))) [
        | inl busy ↦ stay held (λ j. rw busy)
        | inr free ↦
            forget k (ground (arith, v.counts k)) held
              (λ j. rw free (lookup-delete dec k j s.cache.engines))
      ]

  -- Seen without order, capacity and locks, as the leases on each name and the engine that is
  -- cached under it, every step of the threads from a reachable state is one event of the
  -- service: nothing happens; a lease is taken; a lease is given back and engines without a
  -- lease may go; a load stores its engine, or keeps the one that is cached under the name
  -- already, and engines without a lease may go; or a name without a lease is forgotten.
  pub Step-Serve :
      {n most : ℕ} {s t : System K E}
      → Reach dec n most s
      → Step dec n s t
      → Serve dec (view dec n s) (view dec n t)
  unfolding uses pin
  Step-Serve {s = s} r (hit i k c e lt at h) =
      let (found, after) = found_touched dec s.cache c k e h in
      stay (held_same s i c idle (got k e) lt at (λ j. refl) (λ j. refl))
        (λ j. rw after (cached_touched s.cache k e found j))
  Step-Serve {s = s} r (miss i k lt at h) =
      stay (held_same s i s.cache idle (loading k) lt at (λ j. refl) (λ j. refl)) (λ j. refl)
  Step-Serve {s = s} r (load_failed i k lt at) =
      stay (held_same s i s.cache (loading k) idle lt at (λ j. refl) (λ j. refl)) (λ j. refl)
  Step-Serve r (loaded i k e f c lt at h) = loaded_Serve i k e f c (Reach-Inv dec r) lt at h
  Step-Serve {s = s} r (handed_out i k e lt at) =
      stay (held_same s i s.cache (got k e) idle lt at (λ j. refl) (λ j. refl)) (λ j. refl)
  Step-Serve {n} {s = s} r (pinned i k e lt at) =
      take k (λ j. ground (arith, users-update dec j n i s.threads (using k e) lt)) (λ j. refl)
  Step-Serve r (released i k e c lt at h) =
      let v = Reach-Inv dec r in
      released_Serve i k e c v (Step-Inv dec (released i k e c lt at h) v) lt at h
  Step-Serve r (unloaded i k lt at) = unloaded_Serve i k (Reach-Inv dec r) lt at
