-- ===== src/Cache/Threads/Recency.antt =====
-- The order of the cached engines against the requests that touched them.
use bibi_core.Base.{
  ℕ, ◌≡◌, inl, inr, ◌≢◌, false, Option, none, some, List, [], ◌∷◌, arith, length, ◌-◌, Bool-cases,
  ltb, lookup, IsDict,
}
use bibi_core.Base.Dict.Laws.{lookup-touched, lookup-delete}
use bibi_core.Cache.{Cache, ref_count, is_kept, is_protected, evict_if_over_capacity, pin, unload}
use bibi_core.Cache.Recency.{
  age, IsLater, IsOrdered, delete-IsOrdered, drop_idle-IsOrdered, touched-IsOrdered,
  drop_idle-oldest,
}
use bibi_core.Cache.Eviction.{evict_if_over_capacity-drop_idle, evict_unchanged}
use bibi_core.Cache.Sections.{touched, not_kept, lookup-inserted}
use bibi_core.Cache.Threads.{
  System, Step, hit, miss, load_failed, loaded, handed_out, pinned, released, unloaded, Reach, here,
  next,
}
use bibi_core.Cache.Threads.Invariant.{
  Inv, Reach-Inv, using_counted, found_touched, inserted_lem, released_lem, touched_engines-IsDict,
}

module _ {K : Type 0} (dec : Discrete K) where
  -- The names that `_get_or_load` found or stored, the last first.
  abbrev pub requested : {E : Type 0} {n : ℕ} {s t : System K E} → Step dec n s t → List K → List K
  requested (hit i k c e _ _ _) ks = k ∷ ks
  requested (miss i k _ _ _) ks = ks
  requested (load_failed i k _ _) ks = ks
  requested (loaded i k e f c _ _ _) ks = k ∷ ks
  requested (handed_out i k e _ _) ks = ks
  requested (pinned i k e _ _) ks = ks
  requested (released i k e c _ _ _) ks = ks
  requested (unloaded i k _ _) ks = ks

  abbrev pub requests : {E : Type 0} {n most : ℕ} {s : System K E} → Reach dec n most s → List K
  requests here = []
  requests (next r st) = requested st (requests r)

  module _ {E : Type 0} where
    evicted_IsOrdered :
        (ks : List K) (c : Cache K E) (protect : Option K)
        → IsDict dec c.engines
        → IsOrdered dec ks c.engines
        → IsOrdered dec ks (evict_if_over_capacity dec c protect).engines
    evicted_IsOrdered ks c protect d o =
        rw (evict_if_over_capacity-drop_idle dec c protect d)
          (drop_idle-IsOrdered dec ks (is_kept dec c.refs protect) _ c.engines o)

    touched_engines-IsOrdered :
        (k : K) (e : E) (ks : List K) (c : Cache K E)
        → IsOrdered dec ks c.engines
        → IsOrdered dec (k ∷ ks) (touched dec c k e).engines
    unfolding touched
    touched_engines-IsOrdered k e ks c o = touched-IsOrdered dec k e ks c.engines o

    Step-IsOrdered :
        {n : ℕ} {s t : System K E} (ks : List K)
        → Inv dec n s
        → IsOrdered dec ks s.cache.engines
        → (st : Step dec n s t) → IsOrdered dec (requested st ks) t.cache.engines
    unfolding unload pin
    Step-IsOrdered {s = s} ks v o (hit i k c e lt at h) =
        rw ((found_touched dec s.cache c k e h).1) (touched_engines-IsOrdered k e ks s.cache o)
    Step-IsOrdered ks v o (miss i k lt at h) = o
    Step-IsOrdered ks v o (load_failed i k lt at) = o
    Step-IsOrdered {s = s} ks v o (loaded i k e f c lt at h) =
        rw ((inserted_lem dec s.cache c k e f v.engines h).1) (
          evicted_IsOrdered (k ∷ ks) (touched dec s.cache k f) (some k)
            (touched_engines-IsDict dec s.cache k f v.engines)
            (touched_engines-IsOrdered k f ks s.cache o))
    Step-IsOrdered ks v o (handed_out i k e lt at) = o
    Step-IsOrdered ks v o (pinned i k e lt at) = o
    Step-IsOrdered {s = s} ks v o (released i k e c lt at r) =
        let counted = using_counted dec i k e v lt at in
        let (rest, _, after) = released_lem dec s.cache c k counted v.refs v.positive r in
        rw after (evicted_IsOrdered ks (record s.cache { refs = rest }) none v.engines o)
    Step-IsOrdered {s = s} ks v o (unloaded i k lt at) =
        elim (Bool-cases (ltb 0 (ref_count dec s.cache.refs k))) [
          | inl busy ↦ rw busy o
          | inr free ↦ rw free (delete-IsOrdered dec ks k s.cache.engines o)
        ]

    -- In every reachable state the cached engines stand in the order of the last requests of
    -- their names, the oldest first.
    pub Reach-IsOrdered :
        {n most : ℕ} {s : System K E} (r : Reach dec n most s)
        → IsOrdered dec (requests r) s.cache.engines
    Reach-IsOrdered here = tt
    Reach-IsOrdered (next r st) =
        Step-IsOrdered (requests r) (Reach-Inv dec r) (Reach-IsOrdered r) st

  -- The step is `unload` of this name.
  abbrev pub Unloads : {E : Type 0} {n : ℕ} {s t : System K E} → Step dec n s t → K → Type 0
  Unloads (hit i k c e _ _ _) j = ⊥
  Unloads (miss i k _ _ _) j = ⊥
  Unloads (load_failed i k _ _) j = ⊥
  Unloads (loaded i k e f c _ _ _) j = ⊥
  Unloads (handed_out i k e _ _) j = ⊥
  Unloads (pinned i k e _ _) j = ⊥
  Unloads (released i k e c _ _ _) j = ⊥
  Unloads (unloaded i k _ _) j = j ≡ k

  unprotected :
      (refs : List (K × ℕ)) (k : K) → ref_count dec refs k ≡ 0 → is_kept dec refs none k ≡ false
  unfolding is_kept is_protected
  unprotected refs k h = ground arith

  module _ {E : Type 0} where
    -- An eviction from entries that stand in the order of their last requests.
    evicted_oldest :
        (ks : List K) (c : Cache K E) (protect : Option K) (j k : K) (f e : E)
        → IsDict dec c.engines
        → IsOrdered dec ks c.engines
        → lookup dec j c.engines ≡ some f
        → lookup dec j (evict_if_over_capacity dec c protect).engines ≡ none
        → lookup dec k (evict_if_over_capacity dec c protect).engines ≡ some e
        → is_kept dec c.refs protect k ≡ false
        → IsLater dec ks k j
    evicted_oldest ks c protect j k f e d o at gone stays unkept =
        let shape = evict_if_over_capacity-drop_idle dec c protect d in
        drop_idle-oldest dec ks (is_kept dec c.refs protect) (length c.engines - c.max_loaded)
          c.engines j k f e d o at (rw shape at gone) (rw shape at stays) unkept

    loaded_oldest :
        (ks : List K) (c : Cache K E) (l j k : K) (f g e : E)
        → IsDict dec c.engines
        → IsOrdered dec ks c.engines
        → let t = evict_if_over_capacity dec (touched dec c l g) (some l) in
          lookup dec j c.engines ≡ some f
          → lookup dec j t.engines ≡ none
          → lookup dec k t.engines ≡ some e
          → ref_count dec c.refs k ≡ 0
          → IsLater dec (l ∷ ks) k j
    unfolding age touched
    loaded_oldest ks c l j k f g e d o at gone stays unused = elim (dec k l) [
      | yes p ↦ let other : j ≢ l = λ q. ground arith in ground arith
      | no p ↦ elim (dec j l) [
        | yes q ↦ absurd (ground (arith, lookup-inserted dec c l g d))
        | no q ↦
            evicted_oldest (l ∷ ks) (touched dec c l g) (some l) j k f e
              (touched_engines-IsDict dec c l g d) (touched_engines-IsOrdered l g ks c o)
              (ground (arith, lookup-touched dec l j g c.engines)) gone stays
              (not_kept dec c.refs k l p unused)
      ]
    ]

    -- Eviction takes the least recently requested engines first: when a step from a reachable
    -- state takes a cached engine out that it does not unload, every engine that stays cached
    -- and that nobody uses was found or stored by _get_or_load after the last time that the one
    -- that went was.
    pub evicted_before :
        {n most : ℕ} {s t : System K E} (r : Reach dec n most s) (st : Step dec n s t) (j k : K)
        (f e : E)
        → lookup dec j s.cache.engines ≡ some f
        → lookup dec j t.cache.engines ≡ none
        → ¬ Unloads st j
        → lookup dec k t.cache.engines ≡ some e
        → ref_count dec t.cache.refs k ≡ 0
        → IsLater dec (requests (next r st)) k j
    unfolding unload pin touched
    evicted_before {s = s} r (hit i l c g lt run h) j k f e at gone u stays unused =
        let (found, after) = found_touched dec s.cache c l g h in
        absurd (ground (arith, lookup-touched dec l j g s.cache.engines))
    evicted_before r (miss i l lt run h) j k f e at gone u stays unused = absurd (ground arith)
    evicted_before r (load_failed i l lt run) j k f e at gone u stays unused = absurd (ground arith)
    evicted_before {s = s} r (loaded i l g h c lt run eq) j k f e at gone u stays unused =
        let v = Reach-Inv dec r in
        let (first, after) = inserted_lem dec s.cache c l g h v.engines eq in
        let (refs, _) =
          evict_unchanged dec (touched dec s.cache l h) (some l)
            (touched_engines-IsDict dec s.cache l h v.engines) in
        loaded_oldest (requests r) s.cache l j k f h e v.engines (Reach-IsOrdered r) at
          (rw after at gone) (rw after at stays) (rw (after, refs) at unused)
    evicted_before r (handed_out i l g lt run) j k f e at gone u stays unused =
        absurd (ground arith)
    evicted_before r (pinned i l g lt run) j k f e at gone u stays unused = absurd (ground arith)
    evicted_before {s = s} r (released i l g c lt run eq) j k f e at gone u stays unused =
        let v = Reach-Inv dec r in
        let (rest, _, after) =
          released_lem dec s.cache c l (using_counted dec i l g v lt run) v.refs v.positive eq in
        let lean = record s.cache { refs = rest } in
        let (refs, _) = evict_unchanged dec lean none v.engines in
        evicted_oldest (requests r) lean none j k f e v.engines (Reach-IsOrdered r) at
          (rw after at gone) (rw after at stays) (unprotected rest k (rw (after, refs) at unused))
    evicted_before {s = s} r (unloaded i l lt run) j k f e at gone u stays unused =
        absurd (ground (arith, u, lookup-delete dec l j s.cache.engines))
