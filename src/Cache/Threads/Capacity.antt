-- ===== src/Cache/Threads/Capacity.antt =====
-- The capacity of the cache once a request has left.
use bibi_core.Base.{
  ℕ, ◌≤◌, ◌<◌, ◌≡◌, sym, ap, ◌⊎◌, inl, inr, true, none, some, List, [], ◌∷◌, arith, length, All,
}
use bibi_core.Cache.{Cache, ref_count, is_protected, is_kept, release}
use bibi_core.Cache.Eviction.{evict_unchanged, evict_capacity}
use bibi_core.Cache.Threads.{idle, using, System, moved, released, Reach}
use bibi_core.Cache.Threads.Users.{users}
use bibi_core.Cache.Threads.Invariant.{Step-Inv, Reach-Inv, using_counted, released_lem}

module _ {K : Type 0} (dec : Discrete K) where
  kept_pinned :
      (refs : List (K × ℕ)) (k : K) → is_kept dec refs none k ≡ true → 0 < ref_count dec refs k
  unfolding is_kept is_protected
  kept_pinned refs k h = ground arith

module _ {K E : Type 0} (dec : Discrete K) where
  All-imp :
      {P Q : K × E → Type 0} (es : List (K × E)) → ((e : K × E) → P e → Q e) → All P es → All Q es
  All-imp [] f h = tt
  All-imp (e ∷ es) f h = (f e h.0, All-imp es f h.1)

  -- After every release in a reachable state the cache is within its capacity, or every engine
  -- left in it is in use by some thread.
  pub release_capacity :
      {n most : ℕ} {s : System K E}
      → Reach dec n most s
      → (i : ℕ) (k : K) (e : E) (c : Cache K E) → i < n
      → s.threads i ≡ using k e
      → release dec s.cache k ≡ some c
      → (length c.engines ≤ c.max_loaded)
        ⊎ All (λ f. 0 < users dec f.0 n (moved s c i idle).threads) c.engines
  release_capacity {n} {s} r i k e c lt at h =
      let v = Reach-Inv dec r in
      let counted = using_counted dec i k e v lt at in
      let (rest, _, left) = released_lem dec s.cache c k counted v.refs v.positive h in
      let lean = record s.cache { refs = rest } in
      let (same, cap) = evict_unchanged dec lean none v.engines in
      let exact = Step-Inv dec (released i k e c lt at h) v in
      elim (evict_capacity dec lean none v.engines) [
        | inl fits ↦ inl (rw (left, cap) fits)
        | inr all ↦ inr (
            rw left (
              All-imp _
                (λ f kept.
                  rw (sym (exact.counts f.0), ap (λ x. x.refs) left, same)
                    (kept_pinned dec rest f.0 kept))
                all))
      ]
