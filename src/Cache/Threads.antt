-- ===== src/Cache/Threads.antt =====
-- The threads and coroutines that share an engine manager. Each critical section of
-- stt/engine_manager.py and tts/engine_manager.py is one step; between two sections any other
-- request may run. A request for a name goes through `_get_or_load`, with the load itself outside
-- the lock, and `acquire_engine` then raises the count in a section of its own.
pub mod Users
pub mod Invariant
pub mod Safety
pub mod Capacity
pub mod Window
pub mod Leases
pub mod Refinement
pub mod Recency
use bibi_core.Base.{ℕ, ◌≡◌, ◌<◌, Option, none, some, List, [], ite, ℕ_discrete}
use bibi_core.Cache.{Cache, find_loaded, insert_loaded, pin, release, unload}

-- Where a request stands.
pub data Phase (K E : Type 0) : Type 0 where
  idle : Phase K E
  -- `_get_or_load` found nothing and loads outside the lock
  loading : K → Phase K E
  -- `_get_or_load` has returned
  got : K → E → Phase K E
  -- inside the `with` block of `acquire_engine`
  using : K → E → Phase K E

pub record System (K E : Type 0) : Type 0 where
  pub cache : Cache K E
  pub threads : ℕ → Phase K E

-- Thread `i` is in a new phase.
abbrev pub update : {K E : Type 0} → (ℕ → Phase K E) → ℕ → Phase K E → ℕ → Phase K E
update threads i phase thread = ite (ℕ_discrete i thread) phase (threads thread)

abbrev pub moved : {K E : Type 0} → System K E → Cache K E → ℕ → Phase K E → System K E
moved s c i p = record { cache = c; threads = update s.threads i p }

module _ {K E : Type 0} (dec : Discrete K) where
  -- One step of one of `n` threads.
  pub data Step (n : ℕ) (s : System K E) : System K E → Type 0 where
    hit :
        (i : ℕ) (k : K) (c : Cache K E) (e : E)
        → i < n
        → s.threads i ≡ idle
        → find_loaded dec s.cache k ≡ some (c, e)
        → Step n s (moved s c i (got k e))
    miss :
        (i : ℕ) (k : K)
        → i < n
        → s.threads i ≡ idle
        → find_loaded dec s.cache k ≡ none
        → Step n s (moved s s.cache i (loading k))
    -- `resolve_path` or the engine's constructor raises
    load_failed :
        (i : ℕ) (k : K) → i < n → s.threads i ≡ loading k → Step n s (moved s s.cache i idle)
    loaded :
        (i : ℕ) (k : K) (e f : E) (c : Cache K E)
        → i < n
        → s.threads i ≡ loading k
        → insert_loaded dec s.cache k e ≡ some (c, f)
        → Step n s (moved s c i (got k f))
    -- `get_engine` hands the engine out with no count
    handed_out :
        (i : ℕ) (k : K) (e : E) → i < n → s.threads i ≡ got k e → Step n s (moved s s.cache i idle)
    pinned :
        (i : ℕ) (k : K) (e : E)
        → i < n
        → s.threads i ≡ got k e
        → Step n s (moved s (pin dec s.cache k) i (using k e))
    released :
        (i : ℕ) (k : K) (e : E) (c : Cache K E)
        → i < n
        → s.threads i ≡ using k e
        → release dec s.cache k ≡ some c
        → Step n s (moved s c i idle)
    unloaded :
        (i : ℕ) (k : K)
        → i < n
        → s.threads i ≡ idle
        → Step n s (moved s (unload dec s.cache k) i idle)

  abbrev pub start : ℕ → System K E
  start most = record {
    cache = record { engines = []; refs = []; max_loaded = most };
    threads = λ _. idle;
  }

  pub data Reach (n most : ℕ) : System K E → Type 0 where
    here : Reach n most (start most)
    next : {s t : System K E} → Reach n most s → Step n s t → Reach n most t
