-- ===== src/Cache/Threads/Users.antt =====
-- How many of the first `n` threads use the engine of a name.
use bibi_core.Base.{ℕ, zero, suc, ◌+◌, ◌≤◌, ◌<◌, ◌≡◌, refl, ite, arith, dec_lt}
use bibi_core.Cache.Threads.{Phase, idle, loading, got, using, update}

module _ {K E : Type 0} (dec : Discrete K) (k : K) where
  unfoldable pub uses : Phase K E → ℕ
  uses (using j e) = ite (dec k j) 1 0
  uses idle = 0
  uses (loading j) = 0
  uses (got j e) = 0

  unfoldable pub users : ℕ → (ℕ → Phase K E) → ℕ
  users zero f = 0
  users (suc n) f = users n f + uses (f n)

  users_above :
      (n i : ℕ) (f : ℕ → Phase K E) (p : Phase K E) → n ≤ i → users n (update f i p) ≡ users n f
  unfolding users
  users_above zero i f p h = refl
  users_above (suc n) i f p h = ground (arith, users_above n i f p)

  -- When thread `i` moves, only its own share of the count changes.
  pub users-update :
      (n i : ℕ) (f : ℕ → Phase K E) (p : Phase K E)
      → i < n
      → users n (update f i p) + uses (f i) ≡ users n f + uses p
  unfolding users
  users-update zero i f p h = absurd (omega arith)
  users-update (suc n) i f p h = elim (dec_lt i n) [
    | yes below ↦ ground (arith, users-update n i f p below)
    | no last ↦ ground (arith, users_above n i f p)
  ]

  pub uses-le-users : (n i : ℕ) (f : ℕ → Phase K E) → i < n → uses (f i) ≤ users n f
  unfolding users
  uses-le-users zero i f h = absurd (omega arith)
  uses-le-users (suc n) i f h = elim (dec_lt i n) [
    | yes below ↦ ground (arith, uses-le-users n i f below)
    | no last ↦ ground arith
  ]

  pub users_idle : (n : ℕ) (f : ℕ → Phase K E) → ((i : ℕ) → i < n → uses (f i) ≡ 0) → users n f ≡ 0
  unfolding users
  users_idle zero f h = refl
  users_idle (suc n) f h =
      omega (arith, users_idle n f (λ i p. h i (omega arith)), h n (omega arith))
