-- ===== src/Llm/Ollama/Laws.antt =====
-- The cached availability check.
use bibi_core.Base.{
  ℕ, ◌+◌, ◌<◌, ◌≡◌, ◌⊎◌, inl, inr, true, false, Option, none, some, List, [], ◌∷◌, ok, raise, arith,
  All, Bool-cases, ltb→lt, subst, sym,
}
use bibi_core.Llm.Models.{LlmError, model_not_found, ollama_unreachable, unexpected, Try}
use bibi_core.Llm.Ollama.{
  OllamaEngine, Listing, listed, connect_error, other_error, matches, is_fresh, check_listing,
  ensure_model_available,
}

-- One call of the check: when, and what Ollama would answer.
abbrev pub Check : Type 0
Check = ℕ × Listing

-- Ollama lists the model.
abbrev pub IsListed : OllamaEngine → Listing → Type 0
IsListed e (listed available) = matches e.model available ≡ true
IsListed e connect_error = ⊥
IsListed e (other_error t) = ⊥

unfoldable pub run : OllamaEngine → List Check → List (ℕ × Try (Unit {0}))
run e [] = []
run e ((now, listing) ∷ checks) =
    let (e', result) = ensure_model_available e now listing in (now, result) ∷ run e' checks

-- A failed check changes nothing; a successful one was within the time to live, or Ollama listed the
-- model just now and the time is noted.
pub ensure_lem :
    (e : OllamaEngine) (now : ℕ) (listing : Listing)
    → let out = ensure_model_available e now listing in
      ((out.1 ≡ ok tt) × (out.0 ≡ e) × (is_fresh e now ≡ true))
      ⊎ ((out.1 ≡ ok tt)
          × (out.0 ≡ record e { last_checked_at = some now })
          × IsListed e listing
          × (is_fresh e now ≡ false))
      ⊎ ((x : LlmError) × (out.1 ≡ raise x) × (out.0 ≡ e) × (is_fresh e now ≡ false))
unfolding ensure_model_available check_listing
ensure_lem e now (listed available) = elim (Bool-cases (is_fresh e now)) [
  | inl fresh ↦ inl (ground arith)
  | inr stale ↦ elim (Bool-cases (matches e.model available)) [
    | inl yes_listed ↦ inr (inl (ground arith))
    | inr not_listed ↦ inr (inr (model_not_found e.model, ground arith, ground arith, stale))
  ]
]
ensure_lem e now connect_error = elim (Bool-cases (is_fresh e now)) [
  | inl fresh ↦ inl (ground arith)
  | inr stale ↦ inr (inr (ollama_unreachable, ground arith, ground arith, stale))
]
ensure_lem e now (other_error t) = elim (Bool-cases (is_fresh e now)) [
  | inl fresh ↦ inl (ground arith)
  | inr stale ↦ inr (inr (unexpected t, ground arith, ground arith, stale))
]

module _ (e : OllamaEngine) (P : ℕ → Type 0) where
  -- Every time at which Ollama lists the model satisfies `P`.
  abbrev pub Marks : List Check → Type 0
  Marks = All (λ c. IsListed e c.1 → P c.0)

  -- A check passed at a time that satisfies `P`, or less than the time to live after one.
  abbrev pub Vouched : ℕ × Try (Unit {0}) → Type 0
  Vouched c = c.1 ≡ ok tt → P c.0 ⊎ ((t : ℕ) × P t × (c.0 < t + e.ttl))

  abbrev pub Noted : Option ℕ → Type 0
  Noted none = Unit
  Noted (some t) = P t

fresh-Noted :
    (e : OllamaEngine) (P : ℕ → Type 0) (last : Option ℕ) (now : ℕ)
    → Noted e P last
    → is_fresh (record e { last_checked_at = last }) now ≡ true
    → (t : ℕ) × P t × (now < t + e.ttl)
unfolding is_fresh
fresh-Noted e P none now h f = cc
fresh-Noted e P (some t) now h f = (t, h, ltb→lt _ _ f)

run_from :
    (e : OllamaEngine) (P : ℕ → Type 0) (last : Option ℕ) (checks : List Check)
    → Noted e P last
    → Marks e P checks
    → All (Vouched e P) (run (record e { last_checked_at = last }) checks)
unfolding run
run_from e P last [] h marks = tt
run_from e P last ((now, listing) ∷ checks) h (mark, marks) =
    elim (ensure_lem (record e { last_checked_at = last }) now listing) [
      | inl (passed, same, fresh) ↦
          (λ _. inr (fresh-Noted e P last now h fresh), rw same (run_from e P last checks h marks))
      | inr (inl (passed, noted, found, stale)) ↦ (
        λ _. inl (mark (kept listing found)),
        rw noted (run_from e P (some now) checks (mark (kept listing found)) marks),
      )
      | inr (inr (x, failed, same, stale)) ↦ (λ p. cc, rw same (run_from e P last checks h marks))
    ]
  where
    kept : (l : Listing) → IsListed (record e { last_checked_at = last }) l → IsListed e l
    kept (listed available) f = f
    kept connect_error f = f
    kept (other_error t) f = f

-- Over any run of readiness checks by a new engine, where P holds at every time at which Ollama
-- would list the model, a check passes only at a time that satisfies P or less than the time to
-- live after one.
pub run-Vouched :
    (e : OllamaEngine) (P : ℕ → Type 0) (checks : List Check)
    → e.last_checked_at ≡ none
    → Marks e P checks
    → All (Vouched e P) (run e checks)
run-Vouched e P checks new marks =
    subst (λ last. All (Vouched e P) (run (record e { last_checked_at = last }) checks)) (sym new)
      (run_from e P none checks tt marks)
