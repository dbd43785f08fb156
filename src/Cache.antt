-- ===== src/Cache.antt =====
-- The engine cache of stt/engine_manager.py and tts/engine_manager.py: loaded engines by name, oldest
-- use first, with the reference counts that pin them. The two managers share this code word for
-- word. Each definition is one critical section under `self._lock`, or a part of one; `none` is a
-- KeyError. `max_loaded` is a natural number: the code's sign is not checked, and a negative
-- capacity would act as 0.
pub mod Idle
pub mod Eviction
pub mod Sections
pub mod Recency
pub mod Threads
mod Tests
use bibi_core.Base.{
  ℕ, suc, ◌+◌, ◌-◌, Bool, true, false, ◌||◌, Option, none, some, List, [], ◌∷◌, ◌++◌, ite, ltb, leb,
  if◌then◌else◌, length, keys, lookup, insert, delete, move_to_end,
}

pub record Cache (K E : Type 0) : Type 0 where
  pub engines : List (K × E)
  pub refs : List (K × ℕ)
  pub max_loaded : ℕ

module _ {K : Type 0} (dec : Discrete K) where
  -- `self._ref_counts.get(key, 0)`
  unfoldable pub ref_count : List (K × ℕ) → K → ℕ
  ref_count refs k = elim (lookup dec k refs) [ none ↦ 0 | some n ↦ n ]

  -- `key == protect`
  unfoldable pub is_protected : Option K → K → Bool
  is_protected none k = false
  is_protected (some p) k = ite (dec k p) true false

  -- The two `continue` tests of the eviction loop.
  unfoldable pub is_kept : List (K × ℕ) → Option K → K → Bool
  is_kept refs protect k = is_protected protect k || ltb 0 (ref_count refs k)

  -- `self._ref_counts[key] -= 1`, and `del` where it falls to 0.
  unfoldable pub unpin : List (K × ℕ) → K → Option (List (K × ℕ))
  unpin refs k = elim (lookup dec k refs) [
    | none ↦ none
    | some n ↦ some (
        if leb (n - 1) 0
        then delete dec k (insert dec k (n - 1) refs)
        else insert dec k (n - 1) refs)
  ]

  module _ {E : Type 0} (refs : List (K × ℕ)) (max_loaded : ℕ) (protect : Option K) where
    -- The loop over the snapshot of the keys.
    unfoldable pub evict_loop : List K → List (K × E) → List (K × E)
    evict_loop [] engines = engines
    evict_loop (k ∷ ks) engines =
        let rest =
          evict_loop ks (if is_kept refs protect k then engines else delete dec k engines) in
        if leb (length engines) max_loaded then engines else rest

  module _ {E : Type 0} where
    unfoldable pub evict_if_over_capacity : Cache K E → Option K → Cache K E
    unfolding evict_loop
    evict_if_over_capacity c protect = if leb (length c.engines) c.max_loaded then c else record c {
      engines = evict_loop c.refs c.max_loaded protect (keys c.engines) c.engines;
    }

    -- The first section of `_get_or_load`: a loaded engine moves to the end and is returned.
    unfoldable pub find_loaded : Cache K E → K → Option (Cache K E × E)
    find_loaded c k = elim (lookup dec k c.engines) [
      | none ↦ none
      | some e ↦ some (record c { engines = delete dec k c.engines ++ (k, e) ∷ [] }, e)
    ]

    -- `if key not in self._engines: self._engines[key] = engine`
    unfoldable pub keep_first : List (K × E) → K → E → List (K × E)
    keep_first engines k e = elim (lookup dec k engines) [
      | none ↦ insert dec k e engines
      | some _ ↦ engines
    ]

    -- `return self._engines[key]`, in the state that the section leaves.
    unfoldable pub returned : Cache K E → K → Option (Cache K E × E)
    returned c k = elim (lookup dec k c.engines) [ none ↦ none | some e ↦ some (c, e) ]

    -- The second section of `_get_or_load`, with the engine that was loaded outside the lock.
    unfoldable pub insert_loaded : Cache K E → K → E → Option (Cache K E × E)
    unfolding keep_first returned
    insert_loaded c k e = elim (move_to_end dec k (keep_first c.engines k e)) [
      | none ↦ none
      | some engines ↦ returned (evict_if_over_capacity (record c { engines = engines }) (some k)) k
    ]

    -- `self._ref_counts[key] = self._ref_counts.get(key, 0) + 1`
    unfoldable pub pin : Cache K E → K → Cache K E
    pin c k = record c { refs = insert dec k (ref_count c.refs k + 1) c.refs }

    -- The `finally` of `acquire_engine`.
    unfoldable pub release : Cache K E → K → Option (Cache K E)
    unfolding unpin
    release c k = elim (unpin c.refs k) [
      | none ↦ none
      | some refs ↦ some (evict_if_over_capacity (record c { refs = refs }) none)
    ]

    -- `unload` of tts/engine_manager.py.
    unfoldable pub unload : Cache K E → K → Cache K E
    unload c k =
        if ltb 0 (ref_count c.refs k) then c else record c { engines = delete dec k c.engines }
