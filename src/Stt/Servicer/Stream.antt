-- ===== src/Stt/Servicer/Stream.antt =====
-- Which audio each transcript covers.
use bibi_core.Base.{
  ◌*◌, ◌≤◌, ◌≡◌, refl, sym, ◌∙◌, ◌≢◌, inl, inr, Bool, true, false, ◌||◌, none, List, [], ◌∷◌, ◌++◌,
  map, if◌then◌else◌, ok, arith, All, All-append, Bool-cases, append-nil, append_assoc,
}
use bibi_core.Stt.Models.{AudioChunk, Try}
use bibi_core.Stt.Audio.{Duration, total_bytes, bytes_per_second, calculate_duration, at_least}
use bibi_core.Stt.Servicer.{
  Message, chunk_from_proto, EventType, partial, final, window_seconds, is_empty, Emitted, emit,
  flush, utterance_loop,
}

-- The chunks that the loop reads: all up to the first end of an utterance, and whether there is one.
unfoldable pub heard : List Message → List AudioChunk
heard [] = []
heard (m ∷ ms) = chunk_from_proto m ∷ (if m.end_of_utterance then [] else heard ms)

unfoldable pub has_end : List Message → Bool
has_end [] = false
has_end (m ∷ ms) = m.end_of_utterance || has_end ms

abbrev pub HasRate : AudioChunk → Type 0
HasRate c = bytes_per_second c ≢ 0

-- The client does not cancel, and no chunk has a rate of zero.
abbrev pub IsLive : Message → Type 0
IsLive m = (m.cancelled ≡ false) × HasRate (chunk_from_proto m)

pub duration_ok :
    (cs : List AudioChunk) → All HasRate cs → (d : Duration) × (calculate_duration cs ≡ ok d)
unfolding calculate_duration
duration_ok [] h = (_, refl)
duration_ok (c ∷ cs) h =
    (record { total_bytes = total_bytes (c ∷ cs); per_second = bytes_per_second c }, ground arith)

pub not_empty : {A : Type 0} (xs : List A) (x : A) → is_empty (xs ++ x ∷ []) ≡ false
unfolding is_empty
not_empty [] x = refl
not_empty (y ∷ xs) x = refl

-- The chunks of the windows, in order.
unfoldable pub joined : List (EventType × List AudioChunk) → List AudioChunk
joined [] = []
joined ((k, w) ∷ ws) = w ++ joined ws

module _ {A : Type 0} (run : List AudioChunk → Try A) where
  pub loop_final :
      (buffer : List AudioChunk) (m : Message) (ms : List Message) (d : Duration)
      → m.cancelled ≡ false
      → calculate_duration (buffer ++ chunk_from_proto m ∷ []) ≡ ok d
      → m.end_of_utterance ≡ true
      → utterance_loop run buffer (m ∷ ms)
        ≡ flush run final (run (buffer ++ chunk_from_proto m ∷ [])) ([], none)
  unfolding utterance_loop
  loop_final buffer m ms d live dur last =
      ground (arith, live, dur, last, not_empty buffer (chunk_from_proto m))

  pub loop_partial :
      (buffer : List AudioChunk) (m : Message) (ms : List Message) (d : Duration)
      → m.cancelled ≡ false
      → calculate_duration (buffer ++ chunk_from_proto m ∷ []) ≡ ok d
      → m.end_of_utterance ≡ false
      → at_least d window_seconds ≡ true
      → utterance_loop run buffer (m ∷ ms)
        ≡ flush run partial (run (buffer ++ chunk_from_proto m ∷ [])) (utterance_loop run [] ms)
  unfolding utterance_loop
  loop_partial buffer m ms d live dur more full =
      ground (arith, live, dur, more, full, not_empty buffer (chunk_from_proto m))

  pub loop_carry :
      (buffer : List AudioChunk) (m : Message) (ms : List Message) (d : Duration)
      → m.cancelled ≡ false
      → calculate_duration (buffer ++ chunk_from_proto m ∷ []) ≡ ok d
      → (at_least d window_seconds || m.end_of_utterance) ≡ false
      → utterance_loop run buffer (m ∷ ms)
        ≡ utterance_loop run (buffer ++ chunk_from_proto m ∷ []) ms
  unfolding utterance_loop
  loop_carry buffer m ms d live dur short = rw (live, dur, short) (ground arith)

-- At least five seconds of audio, by the rate of the first chunk.
abbrev pub IsLong : List AudioChunk → Type 0
IsLong cs =
    (d : Duration) × (calculate_duration cs ≡ ok d)
    × (window_seconds * d.per_second ≤ d.total_bytes)

at_least-le :
    (d : Duration)
    → at_least d window_seconds ≡ true
    → window_seconds * d.per_second ≤ d.total_bytes
unfolding at_least
at_least-le d h = ground arith

module _ {A : Type 0} (f : List AudioChunk → A) where
  -- `windows` are the batches that were transcribed, `rest` what is in the buffer at the end.
  pub record Covers (buffer : List AudioChunk) (ms : List Message) (r : Emitted (EventType × A))
      : Type 0 where
    pub windows : List (EventType × List AudioChunk)
    pub rest : List AudioChunk
    pub emitted : r.0 ≡ map (λ w. (w.0, f w.1)) windows
    pub quiet : r.1 ≡ none
    pub covered : joined windows ++ rest ≡ buffer ++ heard ms
    pub long : All (λ w. w.0 ≡ partial → IsLong w.1) windows
    pub complete : has_end ms ≡ true → rest ≡ []

  Covers-carried :
      (buffer : List AudioChunk) (m : Message) (ms : List Message) (r : Emitted (EventType × A))
      → m.end_of_utterance ≡ false
      → Covers (buffer ++ chunk_from_proto m ∷ []) ms r
      → Covers buffer (m ∷ ms) r
  unfolding heard has_end chunk_from_proto
  Covers-carried buffer m ms r more c = record {
    windows = c.windows;
    rest = c.rest;
    emitted = c.emitted;
    quiet = c.quiet;
    covered = rw more (c.covered ∙ append_assoc buffer (chunk_from_proto m ∷ []) (heard ms));
    long = c.long;
    complete = λ h. c.complete (rw more at h);
  }

  Covers-final :
      (buffer : List AudioChunk) (m : Message) (ms : List Message)
      → m.end_of_utterance ≡ true
      → Covers buffer (m ∷ ms) ((final, f (buffer ++ chunk_from_proto m ∷ [])) ∷ [], none)
  unfolding heard joined
  Covers-final buffer m ms last = record {
    windows = (final, buffer ++ chunk_from_proto m ∷ []) ∷ [];
    rest = [];
    emitted = refl;
    quiet = refl;
    covered = rw last (append-nil _ ∙ append-nil _);
    long = (λ h. absurd (ground arith), tt);
    complete = λ _. refl;
  }

  Covers-partial :
      (buffer : List AudioChunk) (m : Message) (ms : List Message) (r : Emitted (EventType × A))
      → m.end_of_utterance ≡ false
      → IsLong (buffer ++ chunk_from_proto m ∷ [])
      → Covers [] ms r
      → Covers buffer (m ∷ ms) (emit (partial, f (buffer ++ chunk_from_proto m ∷ [])) r)
  unfolding heard has_end joined chunk_from_proto
  Covers-partial buffer m ms (items, x) more full c = record {
    windows = (partial, buffer ++ chunk_from_proto m ∷ []) ∷ c.windows;
    rest = c.rest;
    emitted = rw c.emitted;
    quiet = c.quiet;
    covered = rw more (
        append_assoc (buffer ++ chunk_from_proto m ∷ []) (joined c.windows) c.rest
        ∙ rw c.covered (append_assoc buffer (chunk_from_proto m ∷ []) (heard ms)));
    long = (λ _. full, c.long);
    complete = λ h. c.complete (rw more at h);
  }

  -- With an engine that always answers, a client that does not cancel and rates that are not
  -- zero, the streaming loop puts every chunk that it reads into exactly one window, in order,
  -- or leaves it in the buffer when the client closes the stream; after an end of the utterance
  -- nothing is left over, each event is the transcript of its window, each partial window is at
  -- least five seconds long, and no exception ends the stream.
  pub utterance_loop-Covers :
      (buffer : List AudioChunk) (ms : List Message)
      → All HasRate buffer
      → All IsLive ms
      → Covers buffer ms (utterance_loop (λ cs. ok (f cs)) buffer ms)
  unfolding utterance_loop heard joined has_end flush
  utterance_loop-Covers buffer [] rates live = record {
    windows = [];
    rest = buffer;
    emitted = refl;
    quiet = refl;
    covered = sym (append-nil buffer);
    long = tt;
    complete = λ h. cc;
  }
  utterance_loop-Covers buffer (m ∷ ms) rates (l, live) =
      let c = chunk_from_proto m in
      let rates' = All-append HasRate buffer (c ∷ []) rates (l.1, tt) in
      let (d, dur) = duration_ok (buffer ++ c ∷ []) rates' in
      let carried = utterance_loop-Covers (buffer ++ c ∷ []) ms rates' live in
      let cleared = utterance_loop-Covers [] ms tt live in
      elim (Bool-cases m.end_of_utterance) [
        | inl last ↦
            rw (loop_final (λ cs. ok (f cs)) buffer m ms d l.0 dur last)
              (Covers-final buffer m ms last)
        | inr more ↦ elim (Bool-cases (at_least d window_seconds)) [
          | inl full ↦
              rw (loop_partial (λ cs. ok (f cs)) buffer m ms d l.0 dur more full)
                (Covers-partial buffer m ms _ more (d, dur, at_least-le d full) cleared)
          | inr short ↦
              rw (loop_carry (λ cs. ok (f cs)) buffer m ms d l.0 dur (ground arith))
                (Covers-carried buffer m ms _ more carried)
        ]
      ]
