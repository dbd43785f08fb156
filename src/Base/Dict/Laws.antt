-- ===== src/Base/Dict/Laws.antt =====
-- Laws of the dictionary operations.
use Prim.Native.Nat.{◌+◌}
use mathlib.Core.Path.{◌≡◌, refl}
use mathlib.Core.Logic.{ite}
use mathlib.Core.Option.{none, some}
use mathlib.Core.List.{List, [], ◌∷◌, ◌++◌, lookup}
use native.Mathlib.Omega.{arith}
use bibi_core.Base.Lists.{length, length-append}
use bibi_core.Base.Dict.{insert, delete, move_to_end, IsDict}

module _ {ℓ} {K V : Type ℓ} (dec : Discrete K) where
  pub lookup-insert :
      (k j : K) (v : V) (m : List (K × V))
      → lookup dec j (insert dec k v m) ≡ ite (dec j k) (some v) (lookup dec j m)
  unfolding lookup insert
  lookup-insert k j v [] = refl
  lookup-insert k j v ((i, w) ∷ m) = ground (arith, lookup-insert k j v m)

  pub lookup-delete :
      (k j : K) (m : List (K × V))
      → lookup dec j (delete dec k m) ≡ ite (dec j k) none (lookup dec j m)
  unfolding lookup delete
  lookup-delete k j [] = ground arith
  lookup-delete k j ((i, w) ∷ m) = ground (arith, lookup-delete k j m)

  pub lookup-append :
      (j : K) (m n : List (K × V))
      → lookup dec j (m ++ n) ≡ elim (lookup dec j m) [ none ↦ lookup dec j n | some v ↦ some v ]
  unfolding lookup
  lookup-append j [] n = refl
  lookup-append j ((i, w) ∷ m) n = ground (arith, lookup-append j m n)

  pub insert-IsDict :
      (k : K) (v : V) (m : List (K × V)) → IsDict dec m → IsDict dec (insert dec k v m)
  unfolding insert lookup
  insert-IsDict k v [] d = (refl, tt)
  insert-IsDict k v ((j, w) ∷ m) d = ground (arith, insert-IsDict k v m d.1, lookup-insert k j v m)

  pub delete-IsDict : (k : K) (m : List (K × V)) → IsDict dec m → IsDict dec (delete dec k m)
  unfolding delete
  delete-IsDict k [] d = tt
  delete-IsDict k ((j, w) ∷ m) d = ground (arith, delete-IsDict k m d.1, lookup-delete k j m)

  pub delete-absent : (k : K) (m : List (K × V)) → lookup dec k m ≡ none → delete dec k m ≡ m
  unfolding lookup delete
  delete-absent k [] h = refl
  delete-absent k ((j, w) ∷ m) h = ground (arith, delete-absent k m)

  pub length-delete :
      (k : K) (v : V) (m : List (K × V))
      → IsDict dec m
      → lookup dec k m ≡ some v
      → length (delete dec k m) + 1 ≡ length m
  unfolding lookup delete
  length-delete k v [] d h = cc
  length-delete k v ((j, w) ∷ m) d h = ground (arith, length-delete k v m d.1, delete-absent k m)

  pub delete-append :
      (k : K) (m n : List (K × V)) → delete dec k (m ++ n) ≡ delete dec k m ++ delete dec k n
  unfolding delete
  delete-append k [] n = refl
  delete-append k ((j, w) ∷ m) n = ground (arith, delete-append k m n)

  pub append-IsDict :
      (m : List (K × V)) (k : K) (v : V)
      → IsDict dec m
      → lookup dec k m ≡ none
      → IsDict dec (m ++ (k, v) ∷ [])
  unfolding lookup
  append-IsDict [] k v d h = (refl, tt)
  append-IsDict ((j, w) ∷ m) k v d h =
      ground (arith, append-IsDict m k v d.1, lookup-append j m ((k, v) ∷ []))

  -- The result of moving a known key to the end.
  pub move_to_end_lem :
      (k : K) (v : V) (m : List (K × V))
      → lookup dec k m ≡ some v
      → move_to_end dec k m ≡ some (delete dec k m ++ (k, v) ∷ [])
  unfolding move_to_end
  move_to_end_lem k v m h = rw (h, move_to_end)

  pub touched-IsDict :
      (k : K) (v : V) (m : List (K × V)) → IsDict dec m → IsDict dec (delete dec k m ++ (k, v) ∷ [])
  touched-IsDict k v m d =
      append-IsDict (delete dec k m) k v (delete-IsDict k m d) (ground (arith, lookup-delete k k m))

  pub lookup-touched :
      (k j : K) (v : V) (m : List (K × V))
      → lookup dec j (delete dec k m ++ (k, v) ∷ []) ≡ ite (dec j k) (some v) (lookup dec j m)
  unfolding lookup
  lookup-touched k j v m =
      ground (arith, lookup-append j (delete dec k m) ((k, v) ∷ []), lookup-delete k j m)

  pub length-touched :
      (k : K) (v w : V) (m : List (K × V))
      → IsDict dec m
      → lookup dec k m ≡ some w
      → length (delete dec k m ++ (k, v) ∷ []) ≡ length m
  length-touched k v w m d h =
      omega (arith, length-append (delete dec k m) ((k, v) ∷ []), length-delete k w m d h)

  pub length-insert_new :
      (k : K) (v : V) (m : List (K × V))
      → lookup dec k m ≡ none
      → length (insert dec k v m) ≡ length m + 1
  unfolding lookup insert
  length-insert_new k v [] h = omega arith
  length-insert_new k v ((j, w) ∷ m) h = ground (arith, length-insert_new k v m)
