-- ===== src/Base/Decimal.antt =====
-- Natural numbers in decimal, as `str` and the `{n}` of an f-string write them. The digits are
-- made from the last one on; the fuel is one more than the number, and each round divides by ten.

use bibi_core.Base.Tests.{ltb, if◌then◌else◌, Bool-cases}
use bibi_core.Base.Texts.{Text}
use Prim.Native.Nat.{ℕ, zero, suc, ◌+◌, ◌-◌, ◌*◌, ◌/◌, ◌%◌, ◌<◌}
use mathlib.Core.Path.{◌≡◌, refl}
use mathlib.Core.Logic.{inl, inr}
use mathlib.Core.List.{[], ◌∷◌, ◌++◌}
use native.Mathlib.Omega.{arith}

unfoldable digits : ℕ → ℕ → Text
digits zero n = []
digits (suc fuel) n =
    let rest = digits fuel (n / 10) in
    if ltb n 10 then (48 + n) ∷ [] else rest ++ (48 + n % 10) ∷ []

unfoldable pub decimal : ℕ → Text
unfolding digits
decimal n = digits (suc n) n

-- The number that a row of digits stands for, after one that is read already.
unfoldable pub read_digits : ℕ → Text → ℕ
read_digits n [] = n
read_digits n (d ∷ ds) = read_digits (n * 10 + (d - 48)) ds

read_digits-append :
    (n : ℕ) (left right : Text)
    → read_digits n (left ++ right) ≡ read_digits (read_digits n left) right
unfolding read_digits
read_digits-append n [] right = refl
read_digits-append n (d ∷ left) right = read_digits-append (n * 10 + (d - 48)) left right

read-digits : (fuel n : ℕ) → n < fuel → read_digits 0 (digits fuel n) ≡ n
unfolding digits read_digits
read-digits zero n h = absurd (omega arith)
read-digits (suc fuel) n h = elim (Bool-cases (ltb n 10)) [
  | inl small ↦ rw small (omega arith)
  | inr large ↦
      rw
        (
          large,
          read_digits-append 0 (digits fuel (n / 10)) ((48 + n % 10) ∷ []),
          read-digits fuel (n / 10) (ground arith),
        )
        (omega arith)
]

-- A number that is written in decimal reads back.
pub read-decimal : (n : ℕ) → read_digits 0 (decimal n) ≡ n
unfolding decimal
read-decimal n = read-digits (suc n) n (omega arith)
