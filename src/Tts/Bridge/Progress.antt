-- ===== src/Tts/Bridge/Progress.antt =====
-- The steps that the two sides of the bridge can take, and the work that they leave.
use bibi_core.Base.{
  ℕ, ◌+◌, ◌*◌, ◌≤◌, ◌<◌, ◌≡◌, refl, sym, ap, ◌∙◌, ◌≢◌, ◌⊎◌, inl, inr, true, false, Option, none,
  some, List, [], ◌∷◌, ◌++◌, map, length, length-append, arith,
}
use bibi_core.Tts.Bridge.{
  Entry, item, failure, sentinel, Producer, running, ending, finished, Consumer, reading, returned,
  raised, closed, maxsize, Bridge, Produce, put_item, drop_item, break_loop, exhausted, put_failure,
  drop_failure, put_sentinel, drop_sentinel, Consume, take_item, take_failure, take_sentinel, close,
  Wait, retry_item, retry_failure, retry_sentinel, poll, Reach, here, produce, consume, wait,
}
use bibi_core.Tts.Bridge.Order.{Outcome, tail_of, at_reading, Reach-Inv}

unfoldable pub phase : Producer → ℕ
phase running = 4
phase ending = 2
phase finished = 0

unfoldable pub attention : {X : Type 0} → Consumer X → ℕ
attention reading = 1
attention returned = 0
attention (raised x) = 0
attention closed = 0

-- What is left to do: to produce, to take, and to end the iteration.
unfoldable pub work : {A X : Type 0} → Bridge A X → ℕ
work s = 2 * length s.pending + phase s.producer + length s.queue + attention s.consumer

module _ {A X : Type 0} where
  pub Produce-lt-work : {s t : Bridge A X} → Produce s t → work t < work s
  unfolding work phase
  Produce-lt-work {s} (put_item a rest p q l) =
      omega (arith, length-append s.queue (item a ∷ []), ap length q)
  Produce-lt-work {s} (drop_item a rest p q r) = omega (arith, ap length q)
  Produce-lt-work {s} (break_loop p r) = rw p (omega arith)
  Produce-lt-work {s} (exhausted p q e) = rw p (omega arith)
  Produce-lt-work {s} (put_failure x p q e l) =
      rw p (omega (arith, length-append s.queue (failure x ∷ [])))
  Produce-lt-work {s} (drop_failure x p q e r) = rw p (omega arith)
  Produce-lt-work {s} (put_sentinel p l) =
      rw p (omega (arith, length-append s.queue (sentinel ∷ [])))
  Produce-lt-work {s} (drop_sentinel p r) = rw p (omega arith)

  pub Consume-lt-work : {s t : Bridge A X} → Consume s t → work t < work s
  unfolding work attention
  Consume-lt-work {s} (take_item a rest c q) = omega (arith, ap length q)
  Consume-lt-work {s} (take_failure x rest c q) = rw c (omega (arith, ap length q))
  Consume-lt-work {s} (take_sentinel rest c q) = rw c (omega (arith, ap length q))
  Consume-lt-work {s} (close c) = rw c (omega arith)

  -- The producer is held up only by a full queue, and not even by that once `stopped` is set.
  Produce-free :
      (s : Bridge A X)
      → s.producer ≢ finished
      → (s.stopped ≡ true) ⊎ (length s.queue < maxsize)
      → (t : Bridge A X) × Produce s t
  Produce-free s ne free = by_phase s.producer refl free
    where
      by_end :
          (end : Option X)
          → s.producer ≡ running
          → s.pending ≡ []
          → s.end ≡ end
          → (s.stopped ≡ true) ⊎ (length s.queue < maxsize)
          → (t : Bridge A X) × Produce s t
      by_end none p q e free = (_, exhausted p q e)
      by_end (some x) p q e (inl stop) = (_, drop_failure x p q e stop)
      by_end (some x) p q e (inr room) = (_, put_failure x p q e room)

      by_pending :
          (pending : List A)
          → s.producer ≡ running
          → s.pending ≡ pending
          → (s.stopped ≡ true) ⊎ (length s.queue < maxsize)
          → (t : Bridge A X) × Produce s t
      by_pending [] p q free = by_end s.end p q refl free
      by_pending (a ∷ rest) p q (inl stop) = (_, drop_item a rest p q stop)
      by_pending (a ∷ rest) p q (inr room) = (_, put_item a rest p q room)

      by_phase :
          (producer : Producer)
          → s.producer ≡ producer
          → (s.stopped ≡ true) ⊎ (length s.queue < maxsize)
          → (t : Bridge A X) × Produce s t
      by_phase running p free = by_pending s.pending p refl free
      by_phase ending p (inl stop) = (_, drop_sentinel p stop)
      by_phase ending p (inr room) = (_, put_sentinel p room)
      by_phase finished p free = absurd (ne p)

  unfinished :
      (got source : List A) (end : Option X) → map item got ++ [] ≢ map item source ++ tail_of end
  unfinished [] [] none h = cc
  unfinished [] [] (some x) h = cc
  unfinished [] (b ∷ source) end h = cc
  unfinished (a ∷ got) [] none h = cc
  unfinished (a ∷ got) [] (some x) h = cc
  unfinished (a ∷ got) (b ∷ source) end h = unfinished got source end cc

  Consume-next :
      (s : Bridge A X) (e : Entry A X) (rest : List (Entry A X))
      → s.consumer ≡ reading
      → s.queue ≡ e ∷ rest
      → (t : Bridge A X) × Consume s t × (t.queue ≡ rest)
  Consume-next s (item a) rest c q = (_, take_item a rest c q, refl)
  Consume-next s (failure x) rest c q = (_, take_failure x rest c q, refl)
  Consume-next s sentinel rest c q = (_, take_sentinel rest c q, refl)

  -- In every state that the producer thread and the coroutine of iter_in_thread reach and in
  -- which the coroutine still reads, one side can go on: the coroutine takes the first entry of
  -- the queue, or the queue is empty and the producer can step.
  pub Reach-moves :
      {source : List A} {end : Option X} {s : Bridge A X}
      → Reach source end s
      → s.consumer ≡ reading
      → ((t : Bridge A X) × (e : Entry A X) × Consume s t × (s.queue ≡ e ∷ t.queue))
        ⊎ ((t : Bridge A X) × Produce s t × (s.queue ≡ []))
  Reach-moves {source} {end} {s} r c = by_queue s.queue refl
    where
      going : s.queue ≡ [] → s.producer ≢ finished
      going q p = unfinished s.yielded source end (rw (q, p) at (at_reading (Reach-Inv r) c).1)

      by_queue :
          (queue : List (Entry A X))
          → s.queue ≡ queue
          → ((t : Bridge A X) × (e : Entry A X) × Consume s t × (s.queue ≡ e ∷ t.queue))
            ⊎ ((t : Bridge A X) × Produce s t × (s.queue ≡ []))
      by_queue [] q =
          let (t, p) = Produce-free s (going q) (inr (rw q (omega arith))) in inr (t, p, q)
      by_queue (e ∷ rest) q =
          let (t, d, same) = Consume-next s e rest c q in
          inl (t, e, d, q ∙ ap (λ es. e ∷ es) (sym same))

  -- Once stopped is set, the producer thread is never held up: in every state in which it has
  -- not finished it can step, and the step leaves less work.
  pub Produce-stopped :
      (s : Bridge A X)
      → s.stopped ≡ true
      → s.producer ≢ finished
      → (t : Bridge A X) × Produce s t × (work t < work s)
  Produce-stopped s stop ne = let (t, p) = Produce-free s ne (inl stop) in (t, p, Produce-lt-work p)

  -- The steps of a run, without the rounds that wait.
  unfoldable pub steps :
      {source : List A} {end : Option X} {s : Bridge A X} → Reach source end s → ℕ
  steps here = 0
  steps (produce r p) = steps r + 1
  steps (consume r c) = steps r + 1
  steps (wait r w) = steps r

  steps-le :
      {source : List A} {end : Option X} {s : Bridge A X} (r : Reach source end s)
      → steps r + work s ≤ 2 * length source + 5
  unfolding steps work phase attention
  steps-le here = omega arith
  steps-le (produce r p) = omega (arith, steps-le r, Produce-lt-work p)
  steps-le (consume r c) = omega (arith, steps-le r, Consume-lt-work c)
  steps-le (wait r w) = steps-le r

  -- `stopped` is set when the iteration is over, and not before.
  stopped_iff :
      (source : List A) (end : Option X) (s : Bridge A X) (c : Consumer X)
      → Outcome source end s c
      → ((c ≡ reading) × (s.stopped ≡ false)) ⊎ (s.stopped ≡ true)
  stopped_iff source end s reading (live, _) = inl (refl, live)
  stopped_iff source end s returned (dead, _, _) = inr dead
  stopped_iff source end s (raised x) (dead, _, _) = inr dead
  stopped_iff source end s closed (dead, _, _) = inr dead

  live_reading :
      {source : List A} {end : Option X} {s : Bridge A X}
      → Reach source end s
      → s.stopped ≡ false
      → s.consumer ≡ reading
  live_reading {source} {end} {s} r live =
      elim (stopped_iff source end s s.consumer (Reach-Inv r).outcome) [
        | inl (c, _) ↦ c
        | inr dead ↦ cc
      ]

  waits_reading :
      {source : List A} {end : Option X} {s : Bridge A X}
      → Reach source end s
      → Wait s
      → s.consumer ≡ reading
  waits_reading r (retry_item a rest p q full live) = live_reading r live
  waits_reading r (retry_failure x p q e full live) = live_reading r live
  waits_reading r (retry_sentinel p full live) = live_reading r live
  waits_reading r (poll c q) = c

  -- In every run of iter_in_thread the two sides together make at most 2 * n + 5 steps for a
  -- generator of n items, less the work that is left, beside the rounds that retry or poll;
  -- whenever one side retries or polls, the other can step: the coroutine can take the first
  -- entry of the queue, or the queue is empty and the producer can step; and once the iteration
  -- is over, nobody retries or polls, and the producer thread can step until it has finished.
  pub steps_bounded :
      {source : List A} {end : Option X} {s : Bridge A X} (r : Reach source end s)
      → (steps r + work s ≤ 2 * length source + 5)
        × (Wait s
            → ((t : Bridge A X) × (e : Entry A X) × Consume s t × (s.queue ≡ e ∷ t.queue))
              ⊎ ((t : Bridge A X) × Produce s t × (s.queue ≡ [])))
        × (s.consumer ≢ reading
            → (¬ Wait s) × (s.producer ≢ finished → (t : Bridge A X) × Produce s t))
  steps_bounded {source} {end} {s} r = (
    steps-le r,
    λ w. Reach-moves r (waits_reading r w),
    λ over. (
      λ w. over (waits_reading r w),
      λ ne. elim (stopped_iff source end s s.consumer (Reach-Inv r).outcome) [
        | inl (c, _) ↦ absurd (over c)
        | inr dead ↦ Produce-free s ne (inl dead)
      ],
    ),
  )
