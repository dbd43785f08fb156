-- ===== src/Cache/Idle.antt =====
-- The list of the engines without its first entries that are idle.
use bibi_core.Base.{
  ℕ, zero, suc, ◌+◌, ◌≤◌, ◌≡◌, refl, ◌⊎◌, inl, inr, Bool, true, false, none, List, [], ◌∷◌, arith,
  if◌then◌else◌, length, lookup, IsDict, Bool-cases, ◌<◌, All,
}

module _ {K E : Type 0} (kept : K → Bool) where
  -- The list without its first `n` entries that are not kept.
  unfoldable pub drop_idle : ℕ → List (K × E) → List (K × E)
  drop_idle zero es = es
  drop_idle (suc n) [] = []
  drop_idle (suc n) ((k, e) ∷ es) =
      let later = drop_idle (suc n) es in
      let sooner = drop_idle n es in if kept k then (k, e) ∷ later else sooner

  pub drop_idle-zero : (es : List (K × E)) → drop_idle zero es ≡ es
  unfolding drop_idle
  drop_idle-zero es = refl

  pub drop_idle-nil : (n : ℕ) → drop_idle n [] ≡ []
  unfolding drop_idle
  drop_idle-nil zero = refl
  drop_idle-nil (suc n) = refl

  pub drop_idle-cons_kept :
      (n : ℕ) (k : K) (e : E) (es : List (K × E))
      → kept k ≡ true
      → drop_idle n ((k, e) ∷ es) ≡ (k, e) ∷ drop_idle n es
  unfolding drop_idle
  drop_idle-cons_kept zero k e es h = refl
  drop_idle-cons_kept (suc n) k e es h = rw h

  pub drop_idle-cons_idle :
      (n : ℕ) (k : K) (e : E) (es : List (K × E))
      → kept k ≡ false
      → drop_idle (suc n) ((k, e) ∷ es) ≡ drop_idle n es
  unfolding drop_idle
  drop_idle-cons_idle n k e es h = rw h

  -- No more than `n` entries go, and fewer only if all that is left is kept.
  pub length-drop_idle :
      (n : ℕ) (es : List (K × E))
      → (length (drop_idle n es) + n ≡ length es)
        ⊎ ((length es < length (drop_idle n es) + n) × All (λ e. kept e.0 ≡ true) (drop_idle n es))
  unfolding drop_idle
  length-drop_idle zero es = inl (omega arith)
  length-drop_idle (suc n) [] = inr (omega arith, tt)
  length-drop_idle (suc n) ((k, e) ∷ es) = elim (Bool-cases (kept k)) [
    | inl stays ↦ rw stays (ground (arith, length-drop_idle (suc n) es))
    | inr goes ↦ rw goes (ground (arith, length-drop_idle n es))
  ]

module _ {K E : Type 0} (kept : K → Bool) where
  pub length-drop_idle-le : (n : ℕ) (es : List (K × E)) → length (drop_idle kept n es) ≤ length es
  unfolding drop_idle
  length-drop_idle-le zero es = omega arith
  length-drop_idle-le (suc n) [] = omega arith
  length-drop_idle-le (suc n) ((k, e) ∷ es) =
      ground (arith, length-drop_idle-le (suc n) es, length-drop_idle-le n es)

module _ {K : Type 0} (dec : Discrete K) where
  pub lookup-drop_idle :
      {E : Type 0} (kept : K → Bool) (n : ℕ) (es : List (K × E)) (k : K)
      → kept k ≡ true
      → lookup dec k (drop_idle kept n es) ≡ lookup dec k es
  unfolding lookup drop_idle
  lookup-drop_idle kept zero es k h = refl
  lookup-drop_idle kept (suc n) [] k h = refl
  lookup-drop_idle kept (suc n) ((j, e) ∷ es) k h =
      ground (arith, lookup-drop_idle kept (suc n) es k h, lookup-drop_idle kept n es k h)

  pub lookup-drop_idle-none :
      {E : Type 0} (kept : K → Bool) (n : ℕ) (es : List (K × E)) (k : K)
      → lookup dec k es ≡ none
      → lookup dec k (drop_idle kept n es) ≡ none
  unfolding lookup drop_idle
  lookup-drop_idle-none kept zero es k h = h
  lookup-drop_idle-none kept (suc n) [] k h = h
  lookup-drop_idle-none kept (suc n) ((j, e) ∷ es) k h =
      ground (arith, lookup-drop_idle-none kept (suc n) es k, lookup-drop_idle-none kept n es k)

  pub lookup-drop_idle-cases :
      {E : Type 0} (kept : K → Bool) (n : ℕ) (es : List (K × E)) (k : K)
      → IsDict dec es
      → (lookup dec k (drop_idle kept n es) ≡ lookup dec k es)
        ⊎ ((kept k ≡ false) × (lookup dec k (drop_idle kept n es) ≡ none))
  unfolding lookup drop_idle
  lookup-drop_idle-cases kept zero es k d = inl refl
  lookup-drop_idle-cases kept (suc n) [] k d = inl refl
  lookup-drop_idle-cases kept (suc n) ((j, e) ∷ es) k d = ground (
    arith,
    lookup-drop_idle-cases kept (suc n) es k d.1,
    lookup-drop_idle-cases kept n es k d.1,
    lookup-drop_idle-none kept n es j d.0,
  )

  pub drop_idle-IsDict :
      {E : Type 0} (kept : K → Bool) (n : ℕ) (es : List (K × E))
      → IsDict dec es
      → IsDict dec (drop_idle kept n es)
  unfolding drop_idle
  drop_idle-IsDict kept zero es d = d
  drop_idle-IsDict kept (suc n) [] d = tt
  drop_idle-IsDict kept (suc n) ((j, e) ∷ es) d = ground (
    arith,
    drop_idle-IsDict kept (suc n) es d.1,
    drop_idle-IsDict kept n es d.1,
    lookup-drop_idle-none kept (suc n) es j d.0,
  )
