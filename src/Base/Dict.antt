-- ===== src/Base/Dict.antt =====
-- Python dictionaries as association lists with distinct keys, in insertion order.
pub mod Laws
use Prim.Native.Nat.{ℕ, suc, ◌+◌}
use mathlib.Core.Path.{◌≡◌, refl}
use mathlib.Core.Logic.{◌≢◌, ◌⊎◌, inl, inr, ite, if_pos, if_neg}
use mathlib.Core.Option.{Option, none, some}
use mathlib.Core.List.{List, [], ◌∷◌, ◌++◌, map, lookup, append-nil}
use native.Mathlib.Omega.{arith}
use bibi_core.Base.Tests.{Option-cases}
use bibi_core.Base.Lists.{length, length-append}

module _ {ℓ} {K V : Type ℓ} where
  abbrev pub keys : List (K × V) → List K
  keys = map (λ e. e.0)

module _ {ℓ} {K V : Type ℓ} (dec : Discrete K) where
  -- `d[k] = v`: in place for a known key, else at the end.
  unfoldable pub insert : K → V → List (K × V) → List (K × V)
  insert k v [] = (k, v) ∷ []
  insert k v ((j, w) ∷ m) = ite (dec k j) ((k, v) ∷ m) ((j, w) ∷ insert k v m)

  -- `d.pop(k, None)`: the dictionary without the key.
  unfoldable pub delete : K → List (K × V) → List (K × V)
  delete k [] = []
  delete k ((j, w) ∷ m) = ite (dec k j) (delete k m) ((j, w) ∷ delete k m)

  -- `OrderedDict.move_to_end(k)`; `none` is the KeyError of a missing key.
  unfoldable pub move_to_end : K → List (K × V) → Option (List (K × V))
  move_to_end k m = elim (lookup dec k m) [
    | none ↦ none
    | some v ↦ some (delete k m ++ (k, v) ∷ [])
  ]

  -- No key stands twice.
  abbrev pub IsDict : List (K × V) → Type ℓ
  IsDict [] = Unit
  IsDict ((k, v) ∷ m) = (lookup dec k m ≡ none) × IsDict m
