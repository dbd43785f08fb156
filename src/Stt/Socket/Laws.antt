-- ===== src/Stt/Socket/Laws.antt =====
-- The websocket against the gRPC stream.
use bibi_core.Base.{
  Result-cases, ℕ, suc, ◌≡◌, refl, ap, inl, inr, true, false, Option, none, some, List, [], ◌∷◌,
  ◌++◌, map, ok, raise, Text, codes, Bool-cases, Option-cases,
}
use bibi_core.Manager.{Manager, or_default, get_or_load}
use bibi_core.Manager.Laws.{IsManager}
use bibi_core.Manager.Acquire.{SameCounts, acquire_engine_balanced}
use bibi_core.Stt.Models.{
  AudioChunk, AudioFormatSpec, Transcript, SttError, model_not_found, unexpected, Try,
}
use bibi_core.Stt.Audio.{Resampler, Duration, calculate_duration, at_least}
use bibi_core.Stt.Servicer.{
  Message, chunk_from_proto, EventType, partial, Emitted, emit, flush, utterance_loop,
  prepare_and_transcribe,
}
use bibi_core.Stt.Servicer.Stream.{loop_partial, loop_carry}
use bibi_core.Stt.Socket.{
  receive_chunk, after_window, window_loop, ending_of, text_of, session, transcribe_stream,
}

-- A frame of audio as a message of the gRPC stream, in the format of the websocket.
abbrev pub message_of : List ℕ → Message
message_of frame = record {
  bytes = frame;
  sample_rate = 16000;
  channels = 1;
  sample_width = 2;
  end_of_utterance = false;
  cancelled = false;
}

abbrev pub as_partial : {A : Type 0} → Emitted A → Emitted (EventType × A)
as_partial (items, x) = (map (λ a. (partial, a)) items, x)

-- What a client takes that meets its message `i` with `refuse i`: the items before the first that it
-- refuses, and then that exception; or all of them, and then `x`.
unfoldable pub taken :
    {A : Type 0} → (ℕ → Option SttError) → ℕ → List A → Option SttError → Emitted A
taken refuse i [] x = ([], x)
taken refuse i (a ∷ items) x =
    let rest = taken refuse (suc i) items x in
    elim (refuse i) [ some y ↦ ([], some y) | none ↦ emit a rest ]

-- A client that takes every message.
abbrev pub stays : ℕ → Option SttError
stays i = none

module _ {A : Type 0} (run : List AudioChunk → Try A) where
  flush_partial :
      (r : Try A) (rest : Emitted A)
      → flush run partial r (as_partial rest) ≡ as_partial (after_window run none r rest)
  unfolding flush after_window
  flush_partial (raise x) rest = refl
  flush_partial (ok a) rest = refl

  utterance_raise :
      (buffer : List AudioChunk) (m : Message) (ms : List Message) (x : SttError)
      → m.cancelled ≡ false
      → calculate_duration (buffer ++ chunk_from_proto m ∷ []) ≡ raise x
      → utterance_loop run buffer (m ∷ ms) ≡ ([], some x)
  unfolding utterance_loop
  utterance_raise buffer m ms x live dur = rw (live, dur)

  module _ (refuse : ℕ → Option SttError) (i : ℕ) where
    window_raise :
        (buffer : List AudioChunk) (c : AudioChunk) (cs : List AudioChunk) (x : SttError)
        → calculate_duration (buffer ++ c ∷ []) ≡ raise x
        → window_loop run refuse i buffer (c ∷ cs) ≡ ([], some x)
    unfolding window_loop
    window_raise buffer c cs x dur = rw (dur, window_loop)

    window_full :
        (buffer : List AudioChunk) (c : AudioChunk) (cs : List AudioChunk) (d : Duration)
        → calculate_duration (buffer ++ c ∷ []) ≡ ok d
        → at_least d 5 ≡ true
        → window_loop run refuse i buffer (c ∷ cs)
          ≡ after_window run
              (refuse i)
              (run (buffer ++ c ∷ []))
              (window_loop run refuse (suc i) [] cs)
    unfolding window_loop
    window_full buffer c cs d dur full = rw (dur, window_loop) (rw full)

    window_short :
        (buffer : List AudioChunk) (c : AudioChunk) (cs : List AudioChunk) (d : Duration)
        → calculate_duration (buffer ++ c ∷ []) ≡ ok d
        → at_least d 5 ≡ false
        → window_loop run refuse i buffer (c ∷ cs) ≡ window_loop run refuse i (buffer ++ c ∷ []) cs
    unfolding window_loop
    window_short buffer c cs d dur short = rw (dur, window_loop) (rw short)

  after_window-taken :
      (refuse : ℕ → Option SttError) (i : ℕ) (r : Try A) (rest cut : Emitted A)
      → cut ≡ taken refuse (suc i) rest.0 rest.1
      → after_window run (refuse i) r cut
        ≡ taken refuse i (after_window run none r rest).0 (after_window run none r rest).1
  unfolding after_window taken
  after_window-taken refuse i (raise x) rest cut h = refl
  after_window-taken refuse i (ok a) rest cut h = elim (Option-cases (refuse i)) [
    | inl live ↦ rw (live, taken, after_window, h) refl
    | inr (y, gone) ↦ rw (gone, taken, after_window) refl
  ]

  -- The loop against that of a client that takes every message.
  window_loop-taken :
      (refuse : ℕ → Option SttError) (i j : ℕ) (buffer cs : List AudioChunk)
      → window_loop run refuse i buffer cs
        ≡ taken refuse i (window_loop run stays j buffer cs).0 (window_loop run stays j buffer cs).1
  window_loop-taken refuse i j buffer [] = unfold window_loop taken in refl
  window_loop-taken refuse i j buffer (c ∷ cs) =
      elim (Result-cases (calculate_duration (buffer ++ c ∷ []))) [
        | inr (x, dur) ↦
            rw (window_raise refuse i buffer c cs x dur, window_raise stays j buffer c cs x dur)
              (unfold taken in refl)
        | inl (d, dur) ↦ elim (Bool-cases (at_least d 5)) [
          | inl full ↦
              rw
                (
                  window_full refuse i buffer c cs d dur full,
                  window_full stays j buffer c cs d dur full,
                )
                (after_window-taken refuse i _ _ _ (window_loop-taken refuse (suc i) (suc j) [] cs))
          | inr short ↦
              rw
                (
                  window_short refuse i buffer c cs d dur short,
                  window_short stays j buffer c cs d dur short,
                )
                (window_loop-taken refuse i j (buffer ++ c ∷ []) cs)
        ]
      ]

  -- For frames of audio without an end of the utterance and a client that does not cancel, the
  -- gRPC loop yields exactly the windows of the websocket loop for a client that takes every
  -- message, each as a PARTIAL event, and ends with the same exception, if one does.
  pub utterance_loop-window_loop :
      (i : ℕ) (buffer : List AudioChunk) (frames : List (List ℕ))
      → utterance_loop run buffer (map message_of frames)
        ≡ as_partial (window_loop run stays i buffer (map receive_chunk frames))
  utterance_loop-window_loop i buffer [] = unfold utterance_loop window_loop in refl
  utterance_loop-window_loop i buffer (frame ∷ frames) =
      let m = message_of frame in
      let ms = map message_of frames in
      let cs = map receive_chunk frames in
      let c = receive_chunk frame in
      let same : chunk_from_proto m ≡ c = unfold chunk_from_proto receive_chunk in refl in
      let cleared = utterance_loop-window_loop (suc i) [] frames in
      let carried = utterance_loop-window_loop i (buffer ++ c ∷ []) frames in
      elim (Result-cases (calculate_duration (buffer ++ c ∷ []))) [
        | inr (x, dur) ↦ rw (
          utterance_raise buffer m ms x refl (rw same dur),
          window_raise stays i buffer c cs x dur,
        )
        | inl (d, dur) ↦ elim (Bool-cases (at_least d 5)) [
          | inl full ↦
              rw
                (
                  loop_partial run buffer m ms d refl (rw same dur) refl full,
                  window_full stays i buffer c cs d dur full,
                  same,
                  cleared,
                )
                (flush_partial _ _)
          | inr short ↦
              rw
                (
                  loop_carry run buffer m ms d refl (rw same dur) (rw short),
                  window_short stays i buffer c cs d dur short,
                  same,
                )
                carried
        ]
      ]

abbrev as_event : {A : Type 0} → A → EventType × A
as_event a = (partial, a)

texts_of_partial :
    {F : Type 0} (ts : List (Transcript F))
    → map text_of ts ≡ map (λ p. text_of p.1) (map as_event ts)
texts_of_partial [] = refl
texts_of_partial (t ∷ ts) = ap (λ us. text_of t ∷ us) (texts_of_partial ts)

taken-map :
    {A B : Type 0} (f : A → B) (refuse : ℕ → Option SttError) (i : ℕ) (items : List A)
    (x : Option SttError)
    → taken refuse i (map f items) x
      ≡ (map f (taken refuse i items x).0, (taken refuse i items x).1)
unfolding taken
taken-map f refuse i [] x = refl
taken-map f refuse i (a ∷ items) x = elim (Option-cases (refuse i)) [
  | inl live ↦ rw (live, taken, taken-map f refuse (suc i) items x) refl
  | inr (y, gone) ↦ rw (gone, taken) refl
]

taken-all :
    {A : Type 0} (refuse : ℕ → Option SttError) (i : ℕ) (items : List A) (x : Option SttError)
    → ((j : ℕ) → refuse j ≡ none)
    → taken refuse i items x ≡ (items, x)
unfolding taken
taken-all refuse i [] x live = refl
taken-all refuse i (a ∷ items) x live =
    rw (live i, taken) (rw (taken-all refuse (suc i) items x live) refl)

module _ {E F : Type 0} (np : Resampler) (required : Option AudioFormatSpec)
    (transcribe : E → List AudioChunk → Try (Transcript F)) (load : Text → Try E) where
  -- What the handler runs on a window, and what `_get_or_load` gives it for the default model.
  abbrev pub run_with : E → List AudioChunk → Try (Transcript F)
  run_with = prepare_and_transcribe np required transcribe

  abbrev pub default_engine : Manager E → Manager E × Try E
  default_engine m =
      get_or_load model_not_found (unexpected (codes "KeyError")) load m (or_default none m.default)

  session_sent :
      (e : E) (refuse : ℕ → Option SttError) (frames : List (List ℕ))
      → let r = utterance_loop (run_with e) [] (map message_of frames) in
        let s = taken refuse 0 r.0 r.1 in
        session (ok (window_loop (run_with e) refuse 0 [] (map receive_chunk frames)))
        ≡ record { sent = map (λ p. text_of p.1) s.0; end = ending_of s.1 }
  unfolding session
  session_sent e refuse frames =
      let cs = map receive_chunk frames in
      let w = window_loop (run_with e) stays 0 [] cs in
      rw
        (
          utterance_loop-window_loop (run_with e) 0 [] frames,
          taken-map as_event refuse 0 w.0 w.1,
          window_loop-taken (run_with e) refuse 0 0 [] cs,
        )
        (ap (λ us. record { sent = us; end = ending_of (taken refuse 0 w.0 w.1).1 })
          (texts_of_partial _))

  -- For a manager in order, a session of the websocket leaves it in order with every count as
  -- before; without an engine nothing is sent and the session ends by that exception; with one,
  -- what is sent are the texts of the PARTIAL events that the gRPC loop yields for the same
  -- frames without an end of the utterance, up to the first that the client refuses, and the
  -- session ends by the exception of that refusal; for a client that refuses none, all of them
  -- are sent and the session ends by the exception that ends that loop.
  pub transcribe_stream_lem :
      (refuse : ℕ → Option SttError) (m : Manager E) (frames : List (List ℕ))
      → IsManager m
      → let g = default_engine m in
        let out = transcribe_stream np required transcribe load refuse m frames in
        IsManager out.0
        × SameCounts m out.0
        × ((x : SttError) → g.1 ≡ raise x → out.1 ≡ record { sent = []; end = ending_of (some x) })
        × ((e : E)
            → g.1 ≡ ok e
            → let r = utterance_loop (run_with e) [] (map message_of frames) in
              let s = taken refuse 0 r.0 r.1 in
              (out.1 ≡ record { sent = map (λ p. text_of p.1) s.0; end = ending_of s.1 })
              × (((j : ℕ) → refuse j ≡ none)
                  → out.1 ≡ record { sent = map (λ p. text_of p.1) r.0; end = ending_of r.1 }))
  unfolding transcribe_stream session
  transcribe_stream_lem refuse m frames v =
      let body : Manager E → E → Manager E × Try (Emitted (Transcript F)) =
        λ held e. (held, ok (window_loop (run_with e) refuse 0 [] (map receive_chunk frames))) in
      let (kept, same, raised, returned) =
        acquire_engine_balanced model_not_found (unexpected (codes "KeyError")) load body m none
          (λ held e w. (w, λ j. refl)) v in
      (
        kept,
        same,
        λ x h. rw (raised x h),
        λ e h.
            let r = utterance_loop (run_with e) [] (map message_of frames) in
            (
              rw (returned e h) (session_sent e refuse frames),
              λ live.
                  rw (returned e h, session_sent e refuse frames, taken-all refuse 0 r.0 r.1 live)
                    refl,
            ),
      )
