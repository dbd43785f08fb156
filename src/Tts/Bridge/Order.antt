-- ===== src/Tts/Bridge/Order.antt =====
-- What the coroutine yields, against what the generator produces.
use bibi_core.Base.{
  ◌≤◌, ◌≡◌, refl, ap, ◌∙◌, true, false, Option, none, some, List, [], ◌∷◌, ◌++◌, map, length,
  length-append, arith, append_assoc, subst,
}
use mathlib.Core.List.{map-append}
use bibi_core.Tts.Bridge.{
  Entry, item, failure, sentinel, Producer, running, ending, finished, Consumer, reading, returned,
  raised, closed, maxsize, Bridge, Produce, put_item, drop_item, break_loop, exhausted, put_failure,
  drop_failure, put_sentinel, drop_sentinel, Consume, take_item, take_failure, take_sentinel, close,
  Reach, here, produce, consume, wait,
}

module _ {A X : Type 0} where
  -- How the entries of a whole generator end.
  abbrev pub tail_of : Option X → List (Entry A X)
  tail_of none = sentinel ∷ []
  tail_of (some x) = failure x ∷ sentinel ∷ []

  -- The entries that the producer has yet to put.
  abbrev pub future : Producer → List A → Option X → List (Entry A X)
  future running pending end = map item pending ++ tail_of end
  future ending pending end = sentinel ∷ []
  future finished pending end = []

  -- What holds of the outcome.
  abbrev pub Outcome : List A → Option X → Bridge A X → Consumer X → Type 0
  Outcome source end s reading =
      (s.stopped ≡ false)
      × (map item s.yielded ++ (s.queue ++ future s.producer s.pending s.end)
          ≡ map item source ++ tail_of end)
  Outcome source end s returned = (s.stopped ≡ true) × (s.yielded ≡ source) × (end ≡ none)
  Outcome source end s (raised x) = (s.stopped ≡ true) × (s.yielded ≡ source) × (end ≡ some x)
  Outcome source end s closed = (s.stopped ≡ true) × (rest : List A) × (s.yielded ++ rest ≡ source)

  pub Produce-keeps :
      {s t : Bridge A X}
      → Produce s t
      → (t.stopped ≡ s.stopped)
        × (t.yielded ≡ s.yielded)
        × (t.consumer ≡ s.consumer)
        × (t.end ≡ s.end)
  Produce-keeps (put_item a rest p q l) = (refl, refl, refl, refl)
  Produce-keeps (drop_item a rest p q r) = (refl, refl, refl, refl)
  Produce-keeps (break_loop p r) = (refl, refl, refl, refl)
  Produce-keeps (exhausted p q e) = (refl, refl, refl, refl)
  Produce-keeps (put_failure x p q e l) = (refl, refl, refl, refl)
  Produce-keeps (drop_failure x p q e r) = (refl, refl, refl, refl)
  Produce-keeps (put_sentinel p l) = (refl, refl, refl, refl)
  Produce-keeps (drop_sentinel p r) = (refl, refl, refl, refl)

  -- Before the stop, a step of the producer moves the next entry into the queue.
  Produce-flow :
      {s t : Bridge A X}
      → Produce s t
      → s.stopped ≡ false
      → t.queue ++ future t.producer t.pending t.end ≡ s.queue ++ future s.producer s.pending s.end
  Produce-flow {s} (put_item a rest p q l) live = rw (p, q) (append_assoc s.queue (item a ∷ []) _)
  Produce-flow (drop_item a rest p q r) live = absurd (ground arith)
  Produce-flow (break_loop p r) live = absurd (ground arith)
  Produce-flow {s} (exhausted p q e) live = rw (p, q, e)
  Produce-flow {s} (put_failure x p q e l) live =
      rw (p, q, e) (append_assoc s.queue (failure x ∷ []) _)
  Produce-flow (drop_failure x p q e r) live = absurd (ground arith)
  Produce-flow {s} (put_sentinel p l) live = rw p (append_assoc s.queue (sentinel ∷ []) [])
  Produce-flow (drop_sentinel p r) live = absurd (ground arith)

  entry_heads : {e f : Entry A X} {es fs : List (Entry A X)} → e ∷ es ≡ f ∷ fs → (e ≡ f) × (es ≡ fs)
  entry_heads h = (cc, cc)

  at_sentinel :
      (got source : List A) (end : Option X) (rest : List (Entry A X))
      → map item got ++ sentinel ∷ rest ≡ map item source ++ tail_of end
      → (got ≡ source) × (end ≡ none)
  at_sentinel [] [] none rest h = (refl, refl)
  at_sentinel [] [] (some x) rest h = cc
  at_sentinel [] (b ∷ source) end rest h = cc
  at_sentinel (a ∷ got) [] none rest h = cc
  at_sentinel (a ∷ got) [] (some x) rest h = cc
  at_sentinel (a ∷ got) (b ∷ source) end rest h =
      let (same, ends) = at_sentinel got source end rest (entry_heads h).1 in (cc, ends)

  at_failure :
      (got source : List A) (end : Option X) (x : X) (rest : List (Entry A X))
      → map item got ++ failure x ∷ rest ≡ map item source ++ tail_of end
      → (got ≡ source) × (end ≡ some x)
  at_failure [] [] none x rest h = cc
  at_failure [] [] (some y) x rest h = (refl, cc)
  at_failure [] (b ∷ source) end x rest h = cc
  at_failure (a ∷ got) [] none x rest h = cc
  at_failure (a ∷ got) [] (some y) x rest h = cc
  at_failure (a ∷ got) (b ∷ source) end x rest h =
      let (same, ends) = at_failure got source end x rest (entry_heads h).1 in (cc, ends)

  at_any :
      (got source : List A) (end : Option X) (rest : List (Entry A X))
      → map item got ++ rest ≡ map item source ++ tail_of end
      → (more : List A) × (got ++ more ≡ source)
  at_any [] source end rest h = (source, refl)
  at_any (a ∷ got) [] none rest h = cc
  at_any (a ∷ got) [] (some x) rest h = cc
  at_any (a ∷ got) (b ∷ source) end rest h =
      let (more, same) = at_any got source end rest (entry_heads h).1 in (more, cc)

  pub record Inv (source : List A) (end : Option X) (s : Bridge A X) : Type 0 where
    pub outcome : Outcome source end s s.consumer
    pub same_end : s.end ≡ end
    pub bounded : length s.queue ≤ maxsize

  Produce-Outcome :
      (source : List A) (end : Option X) {s t : Bridge A X} (c : Consumer X)
      → Produce s t
      → Outcome source end s c
      → Outcome source end t c
  Produce-Outcome source end reading p (live, flow) =
      let (same, kept, _, _) = Produce-keeps p in (same ∙ live, rw (kept, Produce-flow p live) flow)
  Produce-Outcome source end returned p (dead, all, ends) =
      let (same, kept, _, _) = Produce-keeps p in (same ∙ dead, kept ∙ all, ends)
  Produce-Outcome source end (raised x) p (dead, all, ends) =
      let (same, kept, _, _) = Produce-keeps p in (same ∙ dead, kept ∙ all, ends)
  Produce-Outcome source end closed p (dead, rest, all) =
      let (same, kept, _, _) = Produce-keeps p in (same ∙ dead, rest, rw kept all)

  Produce-bounded :
      {s t : Bridge A X} → Produce s t → length s.queue ≤ maxsize → length t.queue ≤ maxsize
  Produce-bounded {s} (put_item a rest p q l) b = omega (arith, length-append s.queue (item a ∷ []))
  Produce-bounded {s} (put_failure x p q e l) b =
      omega (arith, length-append s.queue (failure x ∷ []))
  Produce-bounded {s} (put_sentinel p l) b = omega (arith, length-append s.queue (sentinel ∷ []))
  Produce-bounded (drop_item a rest p q r) b = b
  Produce-bounded (break_loop p r) b = b
  Produce-bounded (exhausted p q e) b = b
  Produce-bounded (drop_failure x p q e r) b = b
  Produce-bounded (drop_sentinel p r) b = b

  Produce-Inv :
      {source : List A} {end : Option X} {s t : Bridge A X}
      → Produce s t
      → Inv source end s
      → Inv source end t
  Produce-Inv {source} {end} {s} p v =
      let (_, _, same, kept) = Produce-keeps p in
      record {
        outcome = rw same (Produce-Outcome source end s.consumer p v.outcome);
        same_end = kept ∙ v.same_end;
        bounded = Produce-bounded p v.bounded;
      }

  -- While the coroutine reads, what is left of the generator follows what it has yielded.
  pub at_reading :
      {source : List A} {end : Option X} {s : Bridge A X}
      → Inv source end s
      → s.consumer ≡ reading
      → (s.stopped ≡ false)
        × (map item s.yielded ++ (s.queue ++ future s.producer s.pending s.end)
            ≡ map item source ++ tail_of end)
  at_reading {source} {end} {s} v c = subst (Outcome source end s) c v.outcome

  Consume-Inv :
      {source : List A} {end : Option X} {s t : Bridge A X}
      → Consume s t
      → Inv source end s
      → Inv source end t
  Consume-Inv {source} {end} {s} (take_item a rest c q) v =
      let (live, flow) = at_reading v c in
      record {
        outcome = rw c (live, rw (map-append, append_assoc) (rw q at flow));
        same_end = v.same_end;
        bounded = omega (arith, v.bounded, ap length q);
      }
  Consume-Inv {source} {end} {s} (take_failure x rest c q) v =
      let (live, flow) = at_reading v c in
      let (all, ends) = at_failure s.yielded source end x _ (rw q at flow) in
      record {
        outcome = (refl, all, ends);
        same_end = v.same_end;
        bounded = omega (arith, v.bounded, ap length q);
      }
  Consume-Inv {source} {end} {s} (take_sentinel rest c q) v =
      let (live, flow) = at_reading v c in
      let (all, ends) = at_sentinel s.yielded source end _ (rw q at flow) in
      record {
        outcome = (refl, all, ends);
        same_end = v.same_end;
        bounded = omega (arith, v.bounded, ap length q);
      }
  Consume-Inv {source} {end} {s} (close c) v =
      let (live, flow) = at_reading v c in
      let (more, all) = at_any s.yielded source end _ flow in
      record { outcome = (refl, more, all); same_end = v.same_end; bounded = v.bounded }

  pub Reach-Inv :
      {source : List A} {end : Option X} {s : Bridge A X} → Reach source end s → Inv source end s
  Reach-Inv here = record { outcome = (refl, refl); same_end = refl; bounded = omega arith }
  Reach-Inv (produce r p) = Produce-Inv p (Reach-Inv r)
  Reach-Inv (consume r c) = Consume-Inv c (Reach-Inv r)
  Reach-Inv (wait r w) = Reach-Inv r

  -- In every state that the producer thread and the coroutine of iter_in_thread reach, the
  -- queue holds at most eight entries; an iteration that has returned has yielded exactly the
  -- items of the generator, in order, which ended without an exception; one that has raised x
  -- has yielded exactly the items before the generator raised that x; one that was closed has
  -- yielded a prefix; and while it reads, stopped is not set and what was yielded, the queue
  -- and the entries to come are the items and the end of the generator.
  pub Reach-Outcome :
      {source : List A} {end : Option X} {s : Bridge A X}
      → Reach source end s
      → Outcome source end s s.consumer × (length s.queue ≤ maxsize)
  Reach-Outcome r = let v = Reach-Inv r in (v.outcome, v.bounded)
