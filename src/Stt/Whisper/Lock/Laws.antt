-- ===== src/Stt/Whisper/Lock/Laws.antt =====
-- What `_model_lock` gives the callers.
use bibi_core.Base.{
  ℕ, ◌≡◌, refl, sym, subst, ◌≢◌, ◌⊎◌, inl, inr, Option, none, some, List, ℕ_discrete, if_pos,
  if_neg, ok, raise, arith, Option-cases,
}
use bibi_core.Base.Int.{ℤ}
use bibi_core.Stt.Models.{AudioChunk, Transcript, SttError, Try}
use bibi_core.Stt.Whisper.{NativeSegment, convert_audio, transcribe}
use bibi_core.Stt.Whisper.Lock.{
  Phase, outside, waiting, inside, done, Shared, moved, outcome, Step, refused, converted, entered,
  left, taken, Reach, here, next,
}

module _ {F : Type 0} (model : List ℤ → Try (List (NativeSegment F))) where
  outcome_lem :
      (source : List AudioChunk) (samples : List ℤ)
      → convert_audio source ≡ ok samples
      → outcome (model samples) ≡ transcribe model source
  unfolding outcome transcribe
  outcome_lem source samples h = ground arith

  transcribe_refused :
      (source : List AudioChunk) {x : SttError}
      → convert_audio source ≡ raise x
      → ◌≡◌ {A = Try (Transcript F)} (raise x) (transcribe model source)
  unfolding transcribe
  transcribe_refused source h = ground arith

  -- What is known of a phase, by whether the thread holds the lock.
  abbrev pub Fits : (held : Type 0) → Phase F → Type 0
  Fits held outside = held → ⊥
  Fits held (waiting source samples) = (held → ⊥) × (convert_audio source ≡ ok samples)
  Fits held (inside source samples) = held × (convert_audio source ≡ ok samples)
  Fits held (done source result) = (held → ⊥) × (result ≡ transcribe model source)

  abbrev pub Inv : Shared F → Type 0
  Inv s = (i : ℕ) → Fits (s.lock ≡ some i) (s.threads i)

  Fits-iff : {A B : Type 0} (p : Phase F) → (A → B) → (B → A) → Fits A p → Fits B p
  Fits-iff outside f g no_lock = λ b. no_lock (g b)
  Fits-iff (waiting source samples) f g (no_lock, e) = (λ b. no_lock (g b), e)
  Fits-iff (inside source samples) f g (a, e) = (f a, e)
  Fits-iff (done source result) f g (no_lock, e) = (λ b. no_lock (g b), e)

  -- Only thread `i` moves, and no other gets or loses the lock.
  Inv-moved :
      (s : Shared F) (lock : Option ℕ) (i : ℕ) (p : Phase F)
      → Inv s
      → Fits (lock ≡ some i) p
      → ((j : ℕ) → j ≢ i → s.lock ≡ some j → lock ≡ some j)
      → ((j : ℕ) → j ≢ i → lock ≡ some j → s.lock ≡ some j)
      → Inv (moved s lock i p)
  Inv-moved s lock i p v fits there back j = elim (ℕ_discrete i j) [
    | yes same ↦
        rw (if_pos (ℕ_discrete i j) same p (s.threads j))
          (subst (λ k. Fits (lock ≡ some k) p) same fits)
    | no other ↦
        rw (if_neg (ℕ_discrete i j) other p (s.threads j)) (
          Fits-iff (s.threads j) (there j (λ e. other (sym e))) (back j (λ e. other (sym e))) (v j))
  ]

  at_phase :
      (s : Shared F) (i : ℕ) {p : Phase F} → s.threads i ≡ p → Inv s → Fits (s.lock ≡ some i) p
  at_phase s i same v = rw same at (v i)

  Step-Inv : {s t : Shared F} → Step model s t → Inv s → Inv t
  Step-Inv {s} (refused i source x at h) v =
      Inv-moved s s.lock i (done source (raise x)) v
        (at_phase s i at v, transcribe_refused source h) (λ j ne e. e) (λ j ne e. e)
  Step-Inv {s} (converted i source samples at h) v =
      Inv-moved s s.lock i (waiting source samples) v (at_phase s i at v, h) (λ j ne e. e)
        (λ j ne e. e)
  Step-Inv {s} (entered i source samples at free) v =
      Inv-moved s (some i) i (inside source samples) v (refl, (at_phase s i at v).1) (λ j ne e. cc)
        (λ j ne e. absurd (ground arith))
  Step-Inv {s} (left i source samples at) v =
      let (held, h) = at_phase s i at v in
      Inv-moved s none i (done source (outcome (model samples))) v
        (λ e. cc, outcome_lem source samples h) (λ j ne e. absurd (ground arith)) (λ j ne e. cc)
  Step-Inv {s} (taken i source result at) v =
      Inv-moved s s.lock i outside v ((at_phase s i at v).0) (λ j ne e. e) (λ j ne e. e)

  Reach-Inv : {s : Shared F} → Reach model s → Inv s
  Reach-Inv here = λ i. λ e. cc
  Reach-Inv (next r st) = Step-Inv st (Reach-Inv r)

  -- The lock is free for the thread, or the one that holds it can leave and free it.
  abbrev pub CanEnter : Shared F → ℕ → List AudioChunk → List ℤ → Type 0
  CanEnter s i source samples =
      ((t : Shared F) × Step model s t × (t.threads i ≡ inside source samples))
      ⊎ ((t : Shared F) × Step model s t × (t.lock ≡ none))

  holder_leaves :
      (s : Shared F) (j : ℕ) (p : Phase F)
      → s.threads j ≡ p
      → s.lock ≡ some j
      → Fits (s.lock ≡ some j) p
      → (t : Shared F) × Step model s t × (t.lock ≡ none)
  holder_leaves s j outside at held no_lock = absurd (no_lock held)
  holder_leaves s j (waiting source samples) at held (no_lock, _) = absurd (no_lock held)
  holder_leaves s j (inside source samples) at held fits = (_, left j source samples at, refl)
  holder_leaves s j (done source result) at held (no_lock, _) = absurd (no_lock held)

  can_enter :
      (s : Shared F) (i : ℕ) (source : List AudioChunk) (samples : List ℤ)
      → Inv s
      → s.threads i ≡ waiting source samples
      → CanEnter s i source samples
  can_enter s i source samples v at = elim (Option-cases s.lock) [
    | inl free ↦ inl (
      moved s (some i) i (inside source samples),
      entered i source samples at free,
      if_pos (ℕ_discrete i i) refl (inside source samples) (s.threads i),
    )
    | inr (j, held) ↦ inr (holder_leaves s j (s.threads j) refl held (v j))
  ]

  -- However the threads that share an engine interleave: at most one of them is in the native
  -- model; a call that is done has the result of transcribe run alone on its audio; and while a
  -- call waits for the lock, it can take it, or the thread that holds it can leave and free it.
  pub serialized :
      {s : Shared F}
      → Reach model s
      → ((i j : ℕ) (a b : List AudioChunk) (xs ys : List ℤ)
          → s.threads i ≡ inside a xs
          → s.threads j ≡ inside b ys
          → i ≡ j)
        × ((i : ℕ) (source : List AudioChunk) (result : Try (Transcript F))
            → s.threads i ≡ done source result
            → result ≡ transcribe model source)
        × ((i : ℕ) (source : List AudioChunk) (samples : List ℤ)
            → s.threads i ≡ waiting source samples
            → CanEnter s i source samples)
  serialized {s} r =
      let v = Reach-Inv r in
      (
        λ i j a b xs ys p q.
            let one : s.lock ≡ some i = (at_phase s i p v).0 in
            let two : s.lock ≡ some j = (at_phase s j q v).0 in cc,
        λ i source result p. (at_phase s i p v).1,
        λ i source samples p. can_enter s i source samples v p,
      )
