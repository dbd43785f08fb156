-- ===== src/Cache/Threads/Leases.antt =====
-- What a manager promises its users, without order, capacity or locks: leases on names, and the
-- engine that is cached under each name.
use bibi_core.Base.{ℕ, suc, ◌-◌, ◌<◌, ◌≡◌, ◌≢◌, ◌⊎◌, ite, Option, none, some, lookup}
use bibi_core.Cache.Threads.{System}
use bibi_core.Cache.Threads.Users.{users}

pub record Pool (K E : Type 0) : Type 0 where
  -- how many leases there are on a name
  pub held : K → ℕ
  pub cached : K → Option E

-- The view of a system of `n` threads.
abbrev pub view : {K E : Type 0} → Discrete K → ℕ → System K E → Pool K E
view dec n s = record {
  held = λ k. users dec k n s.threads;
  cached = λ k. lookup dec k s.cache.engines;
}

module _ {K E : Type 0} (p q : Pool K E) where
  abbrev pub SameHeld : Type 0
  SameHeld = (j : K) → q.held j ≡ p.held j

  abbrev pub SameCached : Type 0
  SameCached = (j : K) → q.cached j ≡ p.cached j

  -- The engine of a name stays, or it is dropped and nobody has a lease on it.
  abbrev pub ShedAt : K → Type 0
  ShedAt j = (q.cached j ≡ p.cached j) ⊎ ((q.held j ≡ 0) × (q.cached j ≡ none))

-- One event of the service.
pub data Serve {K E : Type 0} (dec : Discrete K) (p q : Pool K E) : Type 0 where
  stay : SameHeld p q → SameCached p q → Serve dec p q
  take :
      (k : K)
      → ((j : K) → q.held j ≡ ite (dec j k) (suc (p.held k)) (p.held j))
      → SameCached p q
      → Serve dec p q
  give :
      (k : K)
      → 0 < p.held k
      → ((j : K) → q.held j ≡ ite (dec j k) (p.held k - 1) (p.held j))
      → ((j : K) → ShedAt p q j)
      → Serve dec p q
  -- a load, which keeps the engine that was cached first
  fill :
      (k : K) (e : E)
      → SameHeld p q
      → q.cached k ≡ some e
      → ((f : E) → p.cached k ≡ some f → f ≡ e)
      → ((j : K) → j ≢ k → ShedAt p q j)
      → Serve dec p q
  forget :
      (k : K)
      → p.held k ≡ 0
      → SameHeld p q
      → ((j : K) → q.cached j ≡ ite (dec j k) none (p.cached j))
      → Serve dec p q
