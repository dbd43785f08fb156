-- ===== src/Tts/Relay/Laws.antt =====
-- The RPC over the thread bridge against the loop over the whole stream.
use bibi_core.Base.{
  ℕ, suc, ◌+◌, ◌<◌, ◌≤◌, ◌≡◌, refl, sym, ap, ◌∙◌, inl, inr, Bool, true, false, Option, none, some,
  List, [], ◌∷◌, ◌++◌, append_assoc, length, length-append, arith, subst, dec_lt, Bool-cases,
}
use bibi_core.Tts.Models.{AudioChunk, TtsError}
use bibi_core.Tts.Bridge.{
  Entry, item, failure, sentinel, Consumer, reading, returned, raised, closed, Bridge, Produce,
  take_item, take_failure, take_sentinel, close, produce, consume,
}
use bibi_core.Tts.Bridge
use bibi_core.Tts.Bridge.Order.{Reach-Outcome, Produce-keeps}
use bibi_core.Tts.Bridge.Progress.{work, Produce-lt-work, Consume-lt-work, Reach-moves}
use bibi_core.Tts.Service.{send_loop}
use bibi_core.Tts.Relay.{
  Relay, Step, produced, passed_on, gave_up, ran_out, failed, Reach, here, next, torn_down, idle,
}

module _ (cancelled : ℕ → Bool) where
  -- The client had not cancelled at the chunks from `k` on, up to `n`.
  abbrev Quiet : ℕ → ℕ → Type 0
  Quiet k n = (i : ℕ) → k ≤ i → i < n → cancelled i ≡ false

  send_loop-all :
      (k : ℕ) (cs : List AudioChunk) (x : Option TtsError)
      → Quiet k (k + length cs)
      → send_loop cancelled k cs x ≡ (cs, x)
  unfolding send_loop
  send_loop-all k [] x quiet = refl
  send_loop-all k (c ∷ cs) x quiet =
      let first : cancelled k ≡ false = quiet k (omega arith) (omega arith) in
      rw (first, send_loop-all (suc k) cs x (λ i lo hi. quiet i (omega arith) (omega arith))) refl

  send_loop-cut :
      (k n : ℕ) (cs rest : List AudioChunk) (a : AudioChunk) (x : Option TtsError)
      → Quiet k n
      → n ≡ k + length cs
      → cancelled n ≡ true
      → send_loop cancelled k (cs ++ a ∷ rest) x ≡ (cs, none)
  unfolding send_loop
  send_loop-cut k n [] rest a x quiet at cut =
      let now : cancelled k ≡ true = subst (λ i. cancelled i ≡ true) (omega arith) cut in
      rw now refl
  send_loop-cut k n (c ∷ cs) rest a x quiet at cut =
      let first : cancelled k ≡ false = quiet k (omega arith) (omega arith) in
      rw
        (
          first,
          send_loop-cut (suc k) n cs rest a x (λ i lo hi. quiet i (omega arith) hi) (omega arith)
              cut,
        )
        refl

  module _ (source : List AudioChunk) (end : Option TtsError) where
    record Inv (s : Relay) : Type 0 where
      pub bridge : Bridge.Reach source end s.bridge
      pub same : s.ended ≡ none → s.bridge.consumer ≡ reading → s.sent ≡ s.bridge.yielded
      pub quiet : Quiet 0 (length s.sent)
      pub result :
          (x : Option TtsError) → s.ended ≡ some x → send_loop cancelled 0 source end ≡ (s.sent, x)

    -- What the loop has sent when it takes an entry that ends it.
    all_sent :
        (s : Relay) (x : Option TtsError)
        → Inv s
        → s.sent ≡ source
        → end ≡ x
        → send_loop cancelled 0 source end ≡ (s.sent, x)
    all_sent s x v sent ends =
        rw (← sent, ends) (send_loop-all 0 s.sent x (λ i lo hi. v.quiet i lo (omega arith)))

    uncancelled_next :
        (s : Relay) (a : AudioChunk)
        → Quiet 0 (length s.sent)
        → cancelled (length s.sent) ≡ false
        → Quiet 0 (length (s.sent ++ a ∷ []))
    uncancelled_next s a quiet now i lo hi = elim (dec_lt i (length s.sent)) [
      | yes old ↦ quiet i lo old
      | no last ↦
          subst (λ j. cancelled j ≡ false) (omega (arith, length-append s.sent (a ∷ []))) now
    ]

    Step-Inv : {s t : Relay} → Step cancelled s t → Inv s → Inv t
    Step-Inv {s} (produced b p) v =
        let (_, yielded, consumer, _) = Produce-keeps p in
        record {
          bridge = produce v.bridge p;
          same = λ e c. v.same e (sym consumer ∙ c) ∙ sym yielded;
          quiet = v.quiet;
          result = v.result;
        }
    Step-Inv {s} (passed_on a rest e c q live) v = record {
      bridge = consume v.bridge (take_item a rest c q);
      same = λ e' c'. ap (λ cs. cs ++ a ∷ []) (v.same e c);
      quiet = uncancelled_next s a v.quiet live;
      result = λ x h. absurd (ground arith);
    }
    Step-Inv {s} (gave_up a rest e c q cut) v =
        let r = consume v.bridge (take_item a rest c q) in
        record {
          bridge = r;
          same = λ e' c'. cc;
          quiet = v.quiet;
          result = λ x h.
              let ((_, more, all), _) = Reach-Outcome (consume r (close c)) in
              let whole : s.sent ++ a ∷ more ≡ source =
                ap (λ cs. cs ++ a ∷ more) (v.same e c)
                ∙ (sym (append_assoc s.bridge.yielded (a ∷ []) more) ∙ all) in
              let stop : send_loop cancelled 0 source end ≡ (s.sent, none) =
                rw (← whole)
                  (send_loop-cut 0 (length s.sent) s.sent more a end v.quiet (omega arith) cut) in
              stop ∙ ap (λ y. (s.sent, y)) (cc);
        }
    Step-Inv {s} (ran_out rest e c q) v =
        let r = consume v.bridge (take_sentinel rest c q) in
        let ((_, all, ends), _) = Reach-Outcome r in
        record {
          bridge = r;
          same = λ e' c'. cc;
          quiet = v.quiet;
          result = λ x h. all_sent s x v (v.same e c ∙ all) (ends ∙ (cc));
        }
    Step-Inv {s} (failed y rest e c q) v =
        let r = consume v.bridge (take_failure y rest c q) in
        let ((_, all, ends), _) = Reach-Outcome r in
        record {
          bridge = r;
          same = λ e' c'. cc;
          quiet = v.quiet;
          result = λ x h. all_sent s x v (v.same e c ∙ all) (ends ∙ (cc));
        }

    Reach-Inv : {s : Relay} → Reach cancelled source end s → Inv s
    Reach-Inv here = record {
      bridge = Bridge.here;
      same = λ e c. refl;
      quiet = λ i lo hi. absurd (omega arith);
      result = λ x h. absurd (ground arith);
    }
    Reach-Inv (next r st) = Step-Inv st (Reach-Inv r)
    Reach-Inv (torn_down r c) =
        let v = Reach-Inv r in
        record {
          bridge = consume v.bridge (close c);
          same = λ e' c'. cc;
          quiet = v.quiet;
          result = v.result;
        }
    Reach-Inv (idle r w) = Reach-Inv r

    -- The loop takes what stands first in the queue.
    takes :
        (s : Relay) (e : Entry AudioChunk TtsError) (rest : List (Entry AudioChunk TtsError))
        → s.ended ≡ none
        → s.bridge.consumer ≡ reading
        → s.bridge.queue ≡ e ∷ rest
        → (t : Relay) × Step cancelled s t × (work t.bridge < work s.bridge)
    takes s (item a) rest e c q = elim (Bool-cases (cancelled (length s.sent))) [
      | inl cut ↦ (_, gave_up a rest e c q cut, Consume-lt-work (take_item a rest c q))
      | inr live ↦ (_, passed_on a rest e c q live, Consume-lt-work (take_item a rest c q))
    ]
    takes s (failure x) rest e c q =
        (_, failed x rest e c q, Consume-lt-work (take_failure x rest c q))
    takes s sentinel rest e c q = (_, ran_out rest e c q, Consume-lt-work (take_sentinel rest c q))

    -- However the producer thread and the RPC interleave: when the loop of StreamSynthesize has
    -- ended, what it has sent and how it ended are what the loop over the whole stream of the
    -- engine gives; and until then, unless the iteration was closed from outside, the producer
    -- or the loop can take a step of its own, which is no retry or poll and leaves less work in
    -- the bridge.
    pub relayed :
        {s : Relay}
        → Reach cancelled source end s
        → ((x : Option TtsError)
            → s.ended ≡ some x
            → send_loop cancelled 0 source end ≡ (s.sent, x))
          × (s.ended ≡ none
              → s.bridge.consumer ≡ reading
              → (t : Relay) × Step cancelled s t × (work t.bridge < work s.bridge))
    relayed {s} r =
        let v = Reach-Inv r in
        (
          v.result,
          λ e c. elim (Reach-moves v.bridge c) [
            | inl (b, entry, _, q) ↦ takes s entry b.queue e c q
            | inr (b, p, _) ↦ (_, produced b p, Produce-lt-work p)
          ],
        )
