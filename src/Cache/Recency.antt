-- ===== src/Cache/Recency.antt =====
-- Lists of engines in the order of the last requests of their names.
use bibi_core.Base.{
  ℕ, zero, suc, ◌<◌, ◌≡◌, sym, subst, ◌≢◌, inl, inr, ite, Bool-cases, Bool, false, none, some, List,
  [], ◌∷◌, ◌++◌, arith, All, All-append, lookup, delete, IsDict,
}
use bibi_core.Base.Dict.Laws.{lookup-delete}
use bibi_core.Cache.Idle.{drop_idle, lookup-drop_idle-cases}

-- The names that were requested, the last first.
module _ {K : Type 0} (dec : Discrete K) where
  -- How many requests came since the last one of this name; all of them, if there was none.
  unfoldable pub age : List K → K → ℕ
  age [] j = 0
  age (k ∷ ks) j = ite (dec j k) 0 (suc (age ks j))

  -- The last request of `k` is later than every request of `j`.
  abbrev pub IsLater : List K → K → K → Type 0
  IsLater ks k j = age ks k < age ks j

  -- The entries stand in the order of the last requests of their names, the oldest first.
  abbrev pub IsOrdered : {E : Type 0} → List K → List (K × E) → Type 0
  IsOrdered ks [] = Unit {0}
  IsOrdered ks ((j, w) ∷ es) = All (λ e. IsLater ks e.0 j) es × IsOrdered ks es

  module _ {E : Type 0} where
    All-delete :
        (Good : K × E → Type 0) (k : K) (es : List (K × E))
        → All Good es
        → All Good (delete dec k es)
    unfolding delete
    All-delete Good k [] g = tt
    All-delete Good k ((j, w) ∷ es) (fine, rest) = ground (arith, All-delete Good k es rest)

    pub delete-IsOrdered :
        (ks : List K) (k : K) (es : List (K × E)) → IsOrdered ks es → IsOrdered ks (delete dec k es)
    unfolding delete
    delete-IsOrdered ks k [] o = tt
    delete-IsOrdered ks k ((j, w) ∷ es) (later, o) =
        ground (arith, delete-IsOrdered ks k es o, All-delete (λ e. IsLater ks e.0 j) k es later)

    All-drop_idle :
        (Good : K × E → Type 0) (kept : K → Bool) (n : ℕ) (es : List (K × E))
        → All Good es
        → All Good (drop_idle kept n es)
    unfolding drop_idle
    All-drop_idle Good kept zero es g = g
    All-drop_idle Good kept (suc n) [] g = tt
    All-drop_idle Good kept (suc n) ((j, w) ∷ es) (fine, rest) =
        ground (arith, All-drop_idle Good kept (suc n) es rest, All-drop_idle Good kept n es rest)

    pub drop_idle-IsOrdered :
        (ks : List K) (kept : K → Bool) (n : ℕ) (es : List (K × E))
        → IsOrdered ks es
        → IsOrdered ks (drop_idle kept n es)
    unfolding drop_idle
    drop_idle-IsOrdered ks kept zero es o = o
    drop_idle-IsOrdered ks kept (suc n) [] o = tt
    drop_idle-IsOrdered ks kept (suc n) ((j, w) ∷ es) (later, o) = ground (
      arith,
      drop_idle-IsOrdered ks kept (suc n) es o,
      drop_idle-IsOrdered ks kept n es o,
      All-drop_idle (λ e. IsLater ks e.0 j) kept (suc n) es later,
    )

    All-lookup :
        (Good : K → Type 0) (j : K) (e : E) (es : List (K × E))
        → All (λ d. Good d.0) es
        → lookup dec j es ≡ some e
        → Good j
    unfolding lookup
    All-lookup Good j e [] g h = absurd (ground arith)
    All-lookup Good j e ((i, w) ∷ es) (fine, rest) h = elim (dec j i) [
      | yes p ↦ subst Good (sym p) fine
      | no p ↦ All-lookup Good j e es rest (ground arith)
    ]

    -- A request makes every other name older.
    All-aged :
        (k j : K) (ks : List K) (es : List (K × E))
        → lookup dec k es ≡ none
        → All (λ e. IsLater ks e.0 j) es
        → j ≢ k
        → All (λ e. IsLater (k ∷ ks) e.0 j) es
    unfolding age lookup
    All-aged k j ks [] h g ne = tt
    All-aged k j ks ((i, w) ∷ es) h (fine, rest) ne =
        (ground arith, All-aged k j ks es (ground arith) rest ne)

    aged-IsOrdered :
        (k : K) (e : E) (ks : List K) (es : List (K × E))
        → lookup dec k es ≡ none
        → IsOrdered ks es
        → IsOrdered (k ∷ ks) (es ++ (k, e) ∷ [])
    unfolding age lookup
    aged-IsOrdered k e ks [] h o = (tt, tt)
    aged-IsOrdered k e ks ((j, w) ∷ es) h (later, o) =
        let ne : j ≢ k = λ p. ground arith in
        (
          All-append (λ d. IsLater (k ∷ ks) d.0 j) es ((k, e) ∷ [])
              (All-aged k j ks es (ground arith) later ne) (ground arith, tt),
          aged-IsOrdered k e ks es (ground arith) o,
        )

    -- Moving a name to the end at its request keeps the order.
    pub touched-IsOrdered :
        (k : K) (e : E) (ks : List K) (es : List (K × E))
        → IsOrdered ks es
        → IsOrdered (k ∷ ks) (delete dec k es ++ (k, e) ∷ [])
    touched-IsOrdered k e ks es o =
        aged-IsOrdered k e ks (delete dec k es) (ground (arith, lookup-delete dec k k es))
          (delete-IsOrdered ks k es o)

    lookup-dropped :
        (kept : K → Bool) (n : ℕ) (es : List (K × E)) (k : K) (e : E)
        → IsDict dec es
        → lookup dec k (drop_idle kept n es) ≡ some e
        → lookup dec k es ≡ some e
    lookup-dropped kept n es k e d h = ground (arith, lookup-drop_idle-cases dec kept n es k d)

    -- What is dropped is older than everything that stays without being kept.
    pub drop_idle-oldest :
        (ks : List K) (kept : K → Bool) (n : ℕ) (es : List (K × E)) (j k : K) (f e : E)
        → IsDict dec es
        → IsOrdered ks es
        → lookup dec j es ≡ some f
        → lookup dec j (drop_idle kept n es) ≡ none
        → lookup dec k (drop_idle kept n es) ≡ some e
        → kept k ≡ false
        → IsLater ks k j
    unfolding drop_idle lookup
    drop_idle-oldest ks kept zero es j k f e d o at gone stays unkept = absurd (ground arith)
    drop_idle-oldest ks kept (suc n) [] j k f e d o at gone stays unkept = absurd (ground arith)
    drop_idle-oldest ks kept (suc n) ((i, w) ∷ es) j k f e d (later, o) at gone stays unkept =
        elim (Bool-cases (kept i)) [
          | inl kept_i ↦
              drop_idle-oldest ks kept (suc n) es j k f e d.1 o (ground arith) (ground arith)
                (ground arith) unkept
          | inr goes ↦ elim (dec j i) [
            | yes p ↦
                let left : lookup dec k (drop_idle kept n es) ≡ some e = ground arith in
                subst (IsLater ks k) (sym p) (
                  All-lookup (λ l. IsLater ks l i) k e es later
                    (lookup-dropped kept n es k e d.1 left))
            | no p ↦
                drop_idle-oldest ks kept n es j k f e d.1 o (ground arith) (ground arith)
                  (ground arith) unkept
          ]
        ]
