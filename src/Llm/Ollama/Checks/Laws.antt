-- ===== src/Llm/Ollama/Checks/Laws.antt =====
-- What a skipped check rests on.
use bibi_core.Base.{
  raise_ok, ℕ, ◌+◌, ◌≤◌, ◌<◌, ◌≡◌, ◌≢◌, refl, sym, ◌∙◌, true, false, some, if_pos, if_neg,
  ℕ_discrete, arith, ok, Text, Bool, Bool-cases, Option-cases, inl, inr, ◌⊎◌, ltb→lt,
}
use bibi_core.Llm.Ollama.{
  OllamaEngine, Listing, listed, connect_error, other_error, matches, is_fresh, check_listing,
}
use bibi_core.Llm.Ollama.Laws.{IsListed}
use bibi_core.Llm.Ollama.Checks.{
  Phase, idle, asking, Checking, update, Step, tick, skipped, asked, answered, cancelled, Reach,
  here, next,
}

module _ (P : ℕ → Type 0) where
  -- Ollama listed the model at a time between `t` and `clock`.
  abbrev pub ListedSince : ℕ → ℕ → Type 0
  ListedSince clock t = (u : ℕ) × P u × (t ≤ u) × (u ≤ clock)

  record Inv (s : Checking) : Type 0 where
    noted : (t : ℕ) → s.engine.last_checked_at ≡ some t → ListedSince s.clock t
    past : (i now : ℕ) → s.phase i ≡ asking now → now ≤ s.clock

  false_true : ◌≢◌ {A = Bool} false true
  false_true h = cc

  asking_injective : {m n : ℕ} → asking m ≡ asking n → m ≡ n
  asking_injective h = cc

  idle_asking : {n : ℕ} → idle ≢ asking n
  idle_asking h = cc

  past_update :
      (s : Checking) (i : ℕ) (p : Phase)
      → Inv s
      → ((now : ℕ) → p ≡ asking now → now ≤ s.clock)
      → (j now : ℕ) → update s.phase i p j ≡ asking now
      → now ≤ s.clock
  past_update s i p v new j now h = elim (ℕ_discrete i j) [
    | yes same ↦ new now (sym (if_pos (ℕ_discrete i j) same p (s.phase j)) ∙ h)
    | no other ↦ v.past j now (sym (if_neg (ℕ_discrete i j) other p (s.phase j)) ∙ h)
  ]

  check_listing-ListedSince :
      (e : OllamaEngine) (clock now : ℕ) (listing : Listing)
      → ((t : ℕ) → e.last_checked_at ≡ some t → ListedSince clock t)
      → now ≤ clock
      → (IsListed e listing → P clock)
      → (t : ℕ) → (check_listing e now listing).0.last_checked_at ≡ some t
      → ListedSince clock t
  unfolding check_listing
  check_listing-ListedSince e clock now (listed available) old le mark t h =
      elim (Bool-cases (matches e.model available)) [
        | inl found ↦
            let same : now ≡ t = ground (arith, rw found at h) in
            (clock, mark found, omega (arith, same), omega arith)
        | inr missing ↦ old t (rw missing at h)
      ]
  check_listing-ListedSince e clock now connect_error old le mark t h = old t h
  check_listing-ListedSince e clock now (other_error x) old le mark t h = old t h

  Step-Inv : {s t : Checking} → Step P s t → Inv s → Inv t
  Step-Inv {s = s} (tick later le) v = record {
    noted = λ t h. let (u, p, since, by) = v.noted t h in (u, p, since, omega (arith, by, le));
    past = λ i now h. omega (arith, v.past i now h, le);
  }
  Step-Inv (skipped i at fresh) v = v
  Step-Inv {s = s} (asked i at stale) v = record {
    noted = v.noted;
    past = past_update s i (asking s.clock) v (λ now h. omega (arith, asking_injective h));
  }
  Step-Inv {s = s} (answered i now listing at mark) v = record {
    noted = check_listing-ListedSince s.engine s.clock now listing v.noted (v.past i now at) mark;
    past = past_update s i idle v (λ n h. absurd (idle_asking h));
  }
  Step-Inv {s = s} (cancelled i now at) v = record {
    noted = v.noted;
    past = past_update s i idle v (λ n h. absurd (idle_asking h));
  }

  Reach-Inv : {model : Text} {ttl time : ℕ} {s : Checking} → Reach P model ttl time s → Inv s
  Reach-Inv here = record { noted = λ t h. cc; past = λ i now h. absurd (idle_asking h) }
  Reach-Inv (next r st) = Step-Inv st (Reach-Inv r)

  fresh_listed :
      (e : OllamaEngine) (clock : ℕ)
      → is_fresh e clock ≡ true
      → (t : ℕ) × (e.last_checked_at ≡ some t) × (clock < t + e.ttl)
  unfolding is_fresh
  fresh_listed e clock h = elim (Option-cases e.last_checked_at) [
    | inl never ↦ absurd (false_true (rw never at h))
    | inr (t, at) ↦ (t, at, ltb→lt _ _ (rw at at h))
  ]

  Step_settings :
      {s t : Checking}
      → Step P s t
      → (t.engine.model ≡ s.engine.model) × (t.engine.ttl ≡ s.engine.ttl)
  unfolding check_listing
  Step_settings (tick later le) = (refl, refl)
  Step_settings (skipped i at fresh) = (refl, refl)
  Step_settings (asked i at stale) = (refl, refl)
  Step_settings {s = s} (answered i now (listed available) at mark) =
      elim (Bool-cases (matches s.engine.model available)) [
        | inl found ↦ rw found (refl, refl)
        | inr missing ↦ rw missing (refl, refl)
      ]
  Step_settings (answered i now connect_error at mark) = (refl, refl)
  Step_settings (answered i now (other_error x) at mark) = (refl, refl)
  Step_settings (cancelled i now at) = (refl, refl)

  Reach_settings :
      {model : Text} {ttl time : ℕ} {s : Checking}
      → Reach P model ttl time s
      → (s.engine.model ≡ model) × (s.engine.ttl ≡ ttl)
  Reach_settings here = (refl, refl)
  Reach_settings (next r st) =
      let (model, ttl) = Step_settings st in
      let (model', ttl') = Reach_settings r in (model ∙ model', ttl ∙ ttl')

  -- A check passes: skipped, or by the answer.
  abbrev pub IsPassing : {s t : Checking} → Step P s t → Type 0
  IsPassing (tick later le) = ⊥
  IsPassing (skipped i at fresh) = Unit
  IsPassing (asked i at stale) = ⊥
  IsPassing {s = s} (answered i now listing at mark) =
      (check_listing s.engine now listing).1 ≡ ok tt
  IsPassing (cancelled i now at) = ⊥

  passing-IsListed :
      (e : OllamaEngine) (now : ℕ) (listing : Listing)
      → (check_listing e now listing).1 ≡ ok tt
      → IsListed e listing
  unfolding check_listing
  passing-IsListed e now (listed available) h = elim (Bool-cases (matches e.model available)) [
    | inl found ↦ found
    | inr missing ↦ absurd (raise_ok (rw missing at h))
  ]
  passing-IsListed e now connect_error h = absurd (raise_ok h)
  passing-IsListed e now (other_error x) h = absurd (raise_ok h)

  -- However the readiness checks of the coroutines that share a new engine interleave, and
  -- whichever are cancelled while they wait, where P holds at every time at which Ollama lists
  -- the model, a check passes only at a time that satisfies P, or less than the time to live
  -- after a past time that does.
  pub passing_vouched :
      {model : Text} {ttl time : ℕ} {s t : Checking}
      → Reach P model ttl time s
      → (step : Step P s t) → IsPassing step
      → P s.clock ⊎ ((u : ℕ) × P u × (u ≤ s.clock) × (s.clock < u + ttl))
  passing_vouched r (tick later le) h = absurd h
  passing_vouched {s = s} r (skipped i at fresh) h =
      let (t, noted, soon) = fresh_listed s.engine s.clock fresh in
      let (u, p, since, by) = (Reach-Inv r).noted t noted in
      inr (u, p, by, omega (arith, soon, since, (Reach_settings r).1))
  passing_vouched r (asked i at stale) h = absurd h
  passing_vouched {s = s} r (answered i now listing at mark) h =
      inl (mark (passing-IsListed s.engine now listing h))
  passing_vouched r (cancelled i now at) h = absurd h
