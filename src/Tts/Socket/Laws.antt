-- ===== src/Tts/Socket/Laws.antt =====
-- What a session of the websocket sends, and what it leaves.
use bibi_core.Base.{
  Result-cases, ℕ, ◌≡◌, refl, Bool, false, Option, none, some, List, [], map, ok, raise, Text,
  codes, Option-cases, inl, inr, ◌∙◌,
}
use bibi_core.Manager.{Manager}
use bibi_core.Manager.Laws.{IsManager}
use bibi_core.Manager.Acquire.{SameCounts, acquire_engine_balanced}
use bibi_core.Tts.Models.{TtsError, Try, Stream}
use bibi_core.Tts.Service.{voice_error, key_error, stream_synthesize}
use bibi_core.Tts.Service.Laws.{engine_for, stream_synthesize_lem}
use bibi_core.Tts.Sinks.{write_http}
use bibi_core.Tts.Sinks.Laws.{write_http_live}
use bibi_core.Tts.Socket.{
  Request, closed, text_of, voice_of, ending_of, session_of, speak, tts_stream,
}

module _ {E : Type 0} (stream : E → Text → Stream) (load : Text → Try E)
    (refuse : ℕ → Option TtsError) where
  -- For a text and a voice that are given.
  speak_lem :
      (m : Manager E) (t : Text) (voice : Option Text)
      → IsManager m
      → let out = speak stream load refuse m t (ok voice) in
        IsManager out.0
        × SameCounts m out.0
        × ((x : TtsError)
            → (engine_for stream load m voice).1 ≡ raise x
            → out.1 ≡ record { sent = []; ending = ending_of (some x) })
        × ((e : E)
            → (engine_for stream load m voice).1 ≡ ok e
            → out.1 ≡ session_of (ok (write_http refuse 0 (stream e t).0 (stream e t).1)))
  unfolding speak session_of
  speak_lem m t voice v =
      let body : Manager E → E → Manager E × Try (List (List ℕ) × Option TtsError) =
        λ held e. (held, ok (write_http refuse 0 (stream e t).0 (stream e t).1)) in
      let (kept, same, raised, returned) =
        acquire_engine_balanced voice_error key_error load body m voice (λ held e w. (w, λ j. refl))
          v in
      (kept, same, λ x h. rw (raised x h) refl, λ e h. rw (returned e h) refl)

  tts_stream_kept :
      (m : Manager E) (request : Request)
      → IsManager m
      → let out = tts_stream stream load refuse m request in IsManager out.0 × SameCounts m out.0
  unfolding tts_stream speak
  tts_stream_kept m request v = elim (Option-cases (text_of request.text)) [
    | inl blank ↦ rw (blank, tts_stream) (v, λ j. refl)
    | inr (t, given) ↦ elim (Result-cases (voice_of request.voice)) [
      | inr (x, bad) ↦ rw (given, bad, tts_stream, speak) (v, λ j. refl)
      | inl (voice, good) ↦
          let (kept, same, _, _) = speak_lem m t voice v in
          rw (given, good, tts_stream) (kept, same)
    ]
  ]

  -- For a manager in order, a session of the websocket /tts-stream leaves it in order with
  -- every count as before; a text that is missing or blank is refused with close code 1008 and
  -- a voice that is no text with the reason of the TypeError, both with the manager untouched;
  -- without an engine nothing is sent and the exception ends the session; with one, a client
  -- that takes every frame gets the bytes of the messages of StreamSynthesize for the same text
  -- and voice without a cancellation, and the session ends as the stream of the engine does.
  pub tts_stream_lem :
      (cancelled : ℕ → Bool) (m : Manager E) (request : Request)
      → IsManager m
      → let out = tts_stream stream load refuse m request in
        IsManager out.0
        × SameCounts m out.0
        × (text_of request.text ≡ none
            → out ≡ (m, record { sent = []; ending = closed 1008 (codes "text is required") }))
        × ((t : Text) (x : TtsError)
            → text_of request.text ≡ some t
            → voice_of request.voice ≡ raise x
            → out ≡ (m, record { sent = []; ending = ending_of (some x) }))
        × ((t : Text) (voice : Option Text) (x : TtsError)
            → text_of request.text ≡ some t
            → voice_of request.voice ≡ ok voice
            → (engine_for stream load m voice).1 ≡ raise x
            → out.1 ≡ record { sent = []; ending = ending_of (some x) })
        × ((t : Text) (voice : Option Text) (e : E)
            → text_of request.text ≡ some t
            → voice_of request.voice ≡ ok voice
            → (engine_for stream load m voice).1 ≡ ok e
            → ((j : ℕ) → refuse j ≡ none)
            → ((j : ℕ) → cancelled j ≡ false)
            → out.1 ≡ record {
              sent = map (λ c. c.bytes) (stream_synthesize stream load cancelled m voice t).1.sent;
              ending = ending_of (stream e t).1;
            })
  unfolding tts_stream speak session_of
  tts_stream_lem cancelled m request v =
      let (kept, same) = tts_stream_kept m request v in
      (
        kept,
        same,
        λ blank. rw (blank, tts_stream) refl,
        λ t x given bad. rw (given, bad, tts_stream, speak) refl,
        λ t voice x given good missing.
            rw (given, good, tts_stream) ((speak_lem m t voice v).2 x missing),
        λ t voice e given good found live stays.
            let sent =
              ((stream_synthesize_lem stream load cancelled m voice t v).3 e found).1 stays in
            rw (given, good, tts_stream)
              ((speak_lem m t voice v).3 e found
                ∙ (rw (sent, write_http_live refuse 0 (stream e t).0 (stream e t).1 live) refl)),
      )
