-- ===== src/Tts/Service/Laws.antt =====
-- What the two ways to synthesize answer, and the reference counts after them.
use bibi_core.Base.{
  ℕ, suc, ◌≡◌, refl, ap, Bool, false, Option, none, some, List, [], ◌∷◌, ◌++◌, ok, raise, Text,
  Bool-cases, inl, inr, codes,
}
use bibi_core.Manager.{Manager, or_default, get_or_load}
use bibi_core.Manager.Laws.{IsManager}
use bibi_core.Manager.Acquire.{SameCounts, acquire_engine_balanced}
use bibi_core.Tts.Models.{
  AudioChunk, TtsError, error_message, Try, Stream, Wav, join_bytes, write_frames, encode,
}
use bibi_core.Tts.Service.{
  send_loop, status_of, aborted, replied, voice_error, key_error, success, responded,
  stream_synthesize, create_wav,
}

send_loop_live :
    (cancelled : ℕ → Bool) (i : ℕ) (cs : List AudioChunk) (x : Option TtsError)
    → ((j : ℕ) → cancelled j ≡ false)
    → send_loop cancelled i cs x ≡ (cs, x)
unfolding send_loop
send_loop_live cancelled i [] x live = refl
send_loop_live cancelled i (c ∷ cs) x live = rw (live i, send_loop_live cancelled (suc i) cs x live)

send_loop_prefix :
    (cancelled : ℕ → Bool) (i : ℕ) (cs : List AudioChunk) (x : Option TtsError)
    → (rest : List AudioChunk) × ((send_loop cancelled i cs x).0 ++ rest ≡ cs)
unfolding send_loop
send_loop_prefix cancelled i [] x = ([], refl)
send_loop_prefix cancelled i (c ∷ cs) x = elim (Bool-cases (cancelled i)) [
  | inl stop ↦ (c ∷ cs, rw stop)
  | inr live ↦
      let (rest, same) = send_loop_prefix cancelled (suc i) cs x in
      (rest, rw live (ap (λ ds. c ∷ ds) same))
]

module _ {E : Type 0} (stream : E → Text → Stream) (load : Text → Try E) where
  -- What `_get_or_load` gives for the voice of a request.
  abbrev pub engine_for : Manager E → Option Text → Manager E × Try E
  engine_for m voice = get_or_load voice_error key_error load m (or_default voice m.default)

  -- For a manager in order, StreamSynthesize leaves it in order with every count as before;
  -- without an engine the reply is the status of that exception alone; with one, what was sent
  -- is the beginning of the audio of the engine, in order, and if the client never cancels it
  -- is all of that audio with the status of the exception that ended it, if one did.
  pub stream_synthesize_lem :
      (cancelled : ℕ → Bool) (m : Manager E) (voice : Option Text) (text : Text)
      → IsManager m
      → let g = engine_for m voice in
        let out = stream_synthesize stream load cancelled m voice text in
        IsManager out.0
        × SameCounts m out.0
        × ((x : TtsError)
            → g.1 ≡ raise x
            → out.1 ≡ record { sent = []; status = some (status_of x, error_message x) })
        × ((e : E)
            → g.1 ≡ ok e
            → ((rest : List AudioChunk) × (out.1.sent ++ rest ≡ (stream e text).0))
              × (((j : ℕ) → cancelled j ≡ false)
                  → out.1
                    ≡ record { sent = (stream e text).0; status = aborted (stream e text).1 }))
  unfolding stream_synthesize replied aborted
  stream_synthesize_lem cancelled m voice text v =
      let body : Manager E → E → Manager E × Try Stream =
        λ held e. (held, ok (send_loop cancelled 0 (stream e text).0 (stream e text).1)) in
      let (kept, same, raised, returned) =
        acquire_engine_balanced voice_error key_error load body m voice (λ held e w. (w, λ j. refl))
          v in
      (
        kept,
        same,
        λ x h. rw (raised x h),
        λ e h. rw (returned e h) (
          send_loop_prefix cancelled 0 (stream e text).0 (stream e text).1,
          λ live. rw (send_loop_live cancelled 0 (stream e text).0 (stream e text).1 live),
        ),
      )

  -- For a manager in order, when the engine of a voice streams some chunks without an exception
  -- and wave takes their parameters, a gRPC client that does not cancel and a client of /tts
  -- get the same audio: the frames of the WAV file are the bytes of the messages, in order,
  -- under the parameters of the first.
  pub same_audio :
      (refused : AudioChunk → Option Text) (cancelled : ℕ → Bool) (m : Manager E)
      (voice : Option Text) (text : Text) (e : E) (c : AudioChunk) (cs : List AudioChunk)
      → IsManager m
      → (engine_for m voice).1 ≡ ok e
      → stream e text ≡ (c ∷ cs, none)
      → refused c ≡ none
      → ((j : ℕ) → cancelled j ≡ false)
      → (create_wav stream load refused (codes "wav") m voice text).1
        ≡ success (record {
          channels = c.channels;
          sample_width = c.sample_width;
          framerate = c.sample_rate;
          frames = join_bytes (stream_synthesize stream load cancelled m voice text).1.sent;
        })
  unfolding create_wav responded encode write_frames join_bytes
  same_audio refused cancelled m voice text e c cs v found audio taken live =
      let body : Manager E → E → Manager E × Try Wav =
        λ held f. (held, encode refused (stream f text)) in
      let wav =
        (acquire_engine_balanced voice_error key_error load body m voice
            (λ held f w. (w, λ j. refl)) v).3
          e found in
      let sent = ((stream_synthesize_lem cancelled m voice text v).3 e found).1 live in
      rw (wav, sent, audio) (rw (taken, encode))
