-- ===== src/Cache/Threads/Invariant.antt =====
-- The reference counts against the threads inside `acquire_engine`.
use bibi_core.Base.{ℕ, ◌+◌, ◌<◌, ◌≡◌, refl, sym, ap, ◌∙◌, none, some, List, arith, lookup, IsDict}
use bibi_core.Base.Dict.Laws.{touched-IsDict, insert-IsDict, delete-IsDict}
use bibi_core.Cache.{
  Cache, ref_count, evict_if_over_capacity, find_loaded, insert_loaded, pin, unpin, release, unload,
}
use bibi_core.Cache.Eviction.{evict-IsDict, evict_unchanged}
use bibi_core.Cache.Sections.{
  first_loaded, touched, insert_loaded_lem, IsPositive, ref_count-insert, insert-IsPositive,
  unpin_total,
}
use bibi_core.Cache.Threads.{
  Phase, idle, loading, got, using, System, moved, Step, hit, miss, load_failed, loaded, handed_out,
  pinned, released, unloaded, Reach, here, next,
}
use bibi_core.Cache.Threads.Users.{uses, users, users-update, uses-le-users, users_idle}

module _ {K E : Type 0} (dec : Discrete K) where
  pub record Inv (n : ℕ) (s : System K E) : Type 0 where
    pub engines : IsDict dec s.cache.engines
    pub refs : IsDict dec s.cache.refs
    pub positive : IsPositive dec s.cache.refs
    pub counts : (j : K) → ref_count dec s.cache.refs j ≡ users dec j n s.threads

  -- A section that leaves the counts alone, by a thread that was and is not using an engine.
  Inv-moved :
      {n : ℕ} {s : System K E} (i : ℕ) (c : Cache K E) (p p' : Phase K E)
      → Inv n s
      → i < n
      → s.threads i ≡ p
      → ((j : K) → uses dec j p ≡ 0)
      → ((j : K) → uses dec j p' ≡ 0)
      → c.refs ≡ s.cache.refs
      → IsDict dec c.engines
      → Inv n (moved s c i p')
  Inv-moved {n} {s} i c p p' v lt at before after same d = record {
    engines = d;
    refs = rw same v.refs;
    positive = rw same v.positive;
    counts = λ j. rw same (
        omega (
          arith,
          v.counts j,
          users-update dec j n i s.threads p' lt,
          ap (uses dec j) at,
          before j,
          after j,
        ));
  }

  pub found_touched :
      (c c' : Cache K E) (k : K) (e : E)
      → find_loaded dec c k ≡ some (c', e)
      → (lookup dec k c.engines ≡ some e) × (c' ≡ touched dec c k e)
  unfolding find_loaded touched
  found_touched c c' k e h = ground arith

  pub touched_unchanged : (c : Cache K E) (k : K) (e : E) → (touched dec c k e).refs ≡ c.refs
  unfolding touched
  touched_unchanged c k e = refl

  pub touched_engines-IsDict :
      (c : Cache K E) (k : K) (e : E)
      → IsDict dec c.engines
      → IsDict dec (touched dec c k e).engines
  unfolding touched
  touched_engines-IsDict c k e d = touched-IsDict dec k e c.engines d

  unload_unchanged : (c : Cache K E) (k : K) → (unload dec c k).refs ≡ c.refs
  unfolding unload
  unload_unchanged c k = ground arith

  unload-IsDict :
      (c : Cache K E) (k : K) → IsDict dec c.engines → IsDict dec (unload dec c k).engines
  unfolding unload
  unload-IsDict c k d = ground (arith, delete-IsDict dec k c.engines d)

  -- What `insert_loaded` leaves, if it returns.
  pub inserted_lem :
      (c c' : Cache K E) (k : K) (e f : E)
      → IsDict dec c.engines
      → insert_loaded dec c k e ≡ some (c', f)
      → (f ≡ first_loaded dec c k e)
        × (c' ≡ evict_if_over_capacity dec (touched dec c k f) (some k))
  inserted_lem c c' k e f d h = ground (arith, insert_loaded_lem dec c k e d)

  -- A thread inside `acquire_engine` is counted.
  pub using_counted :
      {n : ℕ} {s : System K E} (i : ℕ) (k : K) (e : E)
      → Inv n s
      → i < n
      → s.threads i ≡ using k e
      → 0 < ref_count dec s.cache.refs k
  unfolding uses
  using_counted {n} {s} i k e v lt at =
      let one : uses dec k (s.threads i) ≡ 1 = rw at (ground arith) in
      omega (arith, v.counts k, uses-le-users dec k n i s.threads lt)

  pinned-Inv :
      {n : ℕ} {s : System K E} (i : ℕ) (k : K) (e : E)
      → Inv n s
      → i < n
      → s.threads i ≡ got k e
      → Inv n (moved s (pin dec s.cache k) i (using k e))
  unfolding pin uses
  pinned-Inv {n} {s} i k e v lt at = record {
    engines = v.engines;
    refs = insert-IsDict dec k _ s.cache.refs v.refs;
    positive = insert-IsPositive dec s.cache.refs k _ (omega arith) v.positive;
    counts = λ j. ground (
      arith,
      v.counts j,
      v.counts k,
      users-update dec j n i s.threads (using k e) lt,
      ref_count-insert dec s.cache.refs k (ref_count dec s.cache.refs k + 1) j,
    );
  }

  released-Inv :
      {n : ℕ} {s : System K E} (i : ℕ) (k : K) (e : E) (c : Cache K E)
      → Inv n s
      → i < n
      → s.threads i ≡ using k e
      → release dec s.cache k ≡ some c
      → Inv n (moved s c i idle)
  unfolding release uses
  released-Inv {n} {s} i k e c v lt at r =
      let counted = using_counted i k e v lt at in
      let (rest, unpinned, dict, positive, counts) =
        unpin_total dec s.cache.refs k counted v.refs v.positive in
      let after : c ≡ evict_if_over_capacity dec (record s.cache { refs = rest }) none =
        ground arith in
      let (same, _) = evict_unchanged dec (record s.cache { refs = rest }) none v.engines in
      record {
        engines = rw after (evict-IsDict dec (record s.cache { refs = rest }) none v.engines);
        refs = rw (after, same) dict;
        positive = rw (after, same) positive;
        counts = λ j.
            rw (after, same)
              (ground (
                arith,
                counts j,
                v.counts j,
                v.counts k,
                users-update dec j n i s.threads idle lt,
              ));
      }

  pub released_lem :
      (c c' : Cache K E) (k : K)
      → 0 < ref_count dec c.refs k
      → IsDict dec c.refs
      → IsPositive dec c.refs
      → release dec c k ≡ some c'
      → (rest : List (K × ℕ)) × (unpin dec c.refs k ≡ some rest)
        × (c' ≡ evict_if_over_capacity dec (record c { refs = rest }) none)
  unfolding release
  released_lem c c' k h d p r =
      let (rest, e, _, _, _) = unpin_total dec c.refs k h d p in (rest, e, ground arith)

  -- Every step keeps the counts exact.
  pub Step-Inv : {n : ℕ} {s t : System K E} → Step dec n s t → Inv n s → Inv n t
  unfolding uses
  Step-Inv {s} (hit i k c e lt at h) v =
      let (_, after) = found_touched s.cache c k e h in
      Inv-moved i c idle (got k e) v lt at (λ j. refl) (λ j. refl)
        (rw after (touched_unchanged s.cache k e))
        (rw after (touched_engines-IsDict s.cache k e v.engines))
  Step-Inv {s} (miss i k lt at h) v =
      Inv-moved i s.cache idle (loading k) v lt at (λ j. refl) (λ j. refl) refl v.engines
  Step-Inv {s} (load_failed i k lt at) v =
      Inv-moved i s.cache (loading k) idle v lt at (λ j. refl) (λ j. refl) refl v.engines
  Step-Inv {s} (loaded i k e f c lt at h) v =
      let (_, after) = inserted_lem s.cache c k e f v.engines h in
      let dict = touched_engines-IsDict s.cache k f v.engines in
      Inv-moved i c (loading k) (got k f) v lt at (λ j. refl) (λ j. refl)
        (rw after (
          (evict_unchanged dec (touched dec s.cache k f) (some k) dict).0
          ∙ touched_unchanged s.cache k f))
        (rw after (evict-IsDict dec (touched dec s.cache k f) (some k) dict))
  Step-Inv {s} (handed_out i k e lt at) v =
      Inv-moved i s.cache (got k e) idle v lt at (λ j. refl) (λ j. refl) refl v.engines
  Step-Inv (pinned i k e lt at) v = pinned-Inv i k e v lt at
  Step-Inv (released i k e c lt at r) v = released-Inv i k e c v lt at r
  Step-Inv {s} (unloaded i k lt at) v =
      Inv-moved i (unload dec s.cache k) idle idle v lt at (λ j. refl) (λ j. refl)
        (unload_unchanged s.cache k) (unload-IsDict s.cache k v.engines)

  -- In every reachable state of the threads the engines and the counts are dictionaries, no
  -- count of 0 is stored, and the reference count of each name is exactly the number of threads
  -- inside acquire_engine for that name.
  pub Reach-Inv : {n most : ℕ} {s : System K E} → Reach dec n most s → Inv n s
  unfolding lookup ref_count uses
  Reach-Inv {n} here = record {
    engines = tt;
    refs = tt;
    positive = λ j. λ e. cc;
    counts = λ j. sym (users_idle dec j n (λ _. idle) (λ i _. refl));
  }
  Reach-Inv (next r st) = Step-Inv st (Reach-Inv r)
