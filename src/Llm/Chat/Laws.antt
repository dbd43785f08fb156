-- ===== src/Llm/Chat/Laws.antt =====
-- The three ways to talk to the model, compared.
use bibi_core.Base.{
  map, ◌++◌, ℕ, suc, ◌≡◌, refl, sym, ap, ◌∙◌, ◌≢◌, inl, inr, Bool, true, false, Option, none, some,
  List, [], ◌∷◌, ok, arith, Text, strip, All, append-nil,
}
use bibi_core.Llm.Personality.{personality}
use bibi_core.Llm.Models.{LlmError, ChatMessage, Emitted}
use bibi_core.Llm.Chunker.{Unicode, Chunking}
use bibi_core.Llm.Chunker.Strip.{squeeze}
use bibi_core.Llm.Chunker.Laws.{concat, IsChunk, Chunks, Text-cases, chunk_stream-Chunks}
use bibi_core.Llm.Chat.{
  Engine, ChatEvent, chunk, done, error, error_event, streamed, Response, http_error, success,
  end_events, chat_events, stream_lines, validate_prompt, failure_status, failure_detail,
  stream_chat_response, stream_chat, guarded, chat_stream, collected, chat,
}

-- Text chunks, closed by one DONE or one error.
abbrev pub IsAnswer : List ChatEvent → Type 0
IsAnswer [] = ⊥
IsAnswer (chunk c ∷ es) = IsAnswer es
IsAnswer (done ∷ es) = es ≡ []
IsAnswer (error code message ∷ es) = es ≡ []

-- The texts of the chunks.
unfoldable pub texts : List ChatEvent → List Text
texts [] = []
texts (chunk c ∷ es) = c ∷ texts es
texts (done ∷ es) = texts es
texts (error code message ∷ es) = texts es

unfoldable pub is_done : List ChatEvent → Bool
is_done [] = false
is_done (chunk c ∷ es) = is_done es
is_done (done ∷ es) = true
is_done (error code message ∷ es) = false

chat_events-stream_lines :
    (cancelled : ℕ → Bool) (i : ℕ) (cs : List Text) (x : Option LlmError)
    → ((j : ℕ) → cancelled j ≡ false)
    → chat_events cancelled i cs x ≡ stream_lines cs x
unfolding chat_events stream_lines
chat_events-stream_lines cancelled i [] x h = refl
chat_events-stream_lines cancelled i (c ∷ cs) x h =
    rw (h i, chat_events-stream_lines cancelled (suc i) cs x h)

stream_lines-IsAnswer : (cs : List Text) (x : Option LlmError) → IsAnswer (stream_lines cs x)
unfolding stream_lines end_events
stream_lines-IsAnswer [] none = refl
stream_lines-IsAnswer [] (some x) = refl
stream_lines-IsAnswer (c ∷ cs) x = stream_lines-IsAnswer cs x

texts-stream_lines : (cs : List Text) (x : Option LlmError) → texts (stream_lines cs x) ≡ cs
unfolding stream_lines end_events texts
texts-stream_lines [] none = refl
texts-stream_lines [] (some x) = refl
texts-stream_lines (c ∷ cs) x = ap (◌∷◌ c) (texts-stream_lines cs x)

is_done-stream_lines :
    (cs : List Text) (x : Option LlmError) → is_done (stream_lines cs x) ≡ true → x ≡ none
unfolding stream_lines end_events is_done
is_done-stream_lines [] none h = refl
is_done-stream_lines [] (some x) h = cc
is_done-stream_lines (c ∷ cs) x h = is_done-stream_lines cs x h

not_done :
    (cs : List Text) (x : Option LlmError)
    → is_done (stream_lines cs x) ≡ false
    → (y : LlmError) × (x ≡ some y)
unfolding stream_lines end_events is_done
not_done [] none h = cc
not_done [] (some x) h = (x, refl)
not_done (c ∷ cs) x h = not_done cs x h

collected_done :
    (cs : List Text) (x : Option LlmError)
    → x ≡ none
    → collected (cs, x) ≡ success (stream_lines cs x)
unfolding collected stream_lines end_events
collected_done cs none h = refl
collected_done cs (some x) h = cc

collected_normal :
    (cs : List Text) (x : Option LlmError)
    → x ≡ none
    → collected (cs, x) ≡ success (map chunk cs ++ done ∷ [])
unfolding collected
collected_normal cs none h = refl
collected_normal cs (some x) h = cc

-- What a stream that breaks off with `x` consists of.
broken_lines :
    (cs : List Text) (x : Option LlmError) (y : LlmError)
    → x ≡ some y
    → stream_lines cs x ≡ map chunk (texts (stream_lines cs x)) ++ error_event y ∷ []
broken_lines cs x y h = rw texts-stream_lines (rw h (unfold stream_lines end_events in refl))

collected_broken :
    (cs : List Text) (x : Option LlmError) (y : LlmError)
    → x ≡ some y
    → collected (cs, x) ≡ http_error (failure_status y) (failure_detail y)
unfolding collected
collected_broken cs none y h = cc
collected_broken cs (some x) y h = ground arith

module _ (unicode : Unicode) (config : Chunking) (engine : Engine) where
  -- What the engine streams for a request: the system prompt stands before the client's history.
  abbrev pub answer : Text → List ChatMessage → Emitted Text
  answer prompt history = engine.stream_response (personality ∷ history) prompt

  guarded_pass :
      {A : Type 0} (prompt : Text) (work : Response A)
      → engine.ready ≡ ok tt
      → strip prompt ≢ []
      → guarded unicode config engine prompt work ≡ work
  unfolding guarded validate_prompt
  guarded_pass prompt work ready text = elim (Text-cases (strip prompt)) [
    | inl blank ↦ absurd (text blank)
    | inr (c, r, e) ↦ rw (e, guarded, validate_prompt) (rw ready)
  ]

  response_Chunks :
      (prompt : Text) (history : List ChatMessage)
      → Chunks unicode config []
          (answer prompt history).0
          (answer prompt history).1
          (stream_chat_response unicode config engine prompt (personality ∷ history))
  unfolding stream_chat_response
  response_Chunks prompt history =
      chunk_stream-Chunks unicode config (answer prompt history).0 (answer prompt history).1

  -- If the chunks end normally, nothing visible is missing.
  whole :
      (prompt : Text) (history : List ChatMessage)
      → let out = stream_chat_response unicode config engine prompt (personality ∷ history) in
        out.1 ≡ none → squeeze (concat out.0) ≡ squeeze (concat (answer prompt history).0)
  whole prompt history normal =
      let c = response_Chunks prompt history in
      sym (append-nil _) ∙ rw (← c.nothing_lost (sym c.ended ∙ normal)) c.kept

  -- With a ready engine, a prompt that is not blank and a client that stays, the gRPC stream
  -- and the NDJSON stream are the same events, chunks closed by one DONE or one error; when
  -- they close with DONE, the answer of the model has ended normally, /chat gives those events
  -- as its data, and the chunks hold every visible character of the answer, in order; when they
  -- do not, the answer of the model has broken off with an exception, the events close with its
  -- code and message, and /chat answers with the status and the detail of the same exception.
  pub same_answer :
      (cancelled : ℕ → Bool) (prompt : Text) (history : List ChatMessage)
      → engine.ready ≡ ok tt
      → strip prompt ≢ []
      → ((j : ℕ) → cancelled j ≡ false)
      → (es : List ChatEvent) × (stream_chat unicode config engine cancelled prompt history
          ≡ streamed es)
        × (chat_stream unicode config engine prompt history ≡ success es)
        × IsAnswer es
        × All IsChunk (texts es)
        × ((is_done es ≡ true)
            → ((answer prompt history).1 ≡ none)
              × (chat unicode config engine prompt history ≡ success es)
              × (squeeze (concat (texts es)) ≡ squeeze (concat (answer prompt history).0)))
        × ((is_done es ≡ false)
            → (x : LlmError) × ((answer prompt history).1 ≡ some x)
              × (es ≡ map chunk (texts es) ++ error_event x ∷ [])
              × (chat unicode config engine prompt history
                  ≡ http_error (failure_status x) (failure_detail x)))
  unfolding stream_chat chat_stream chat
  same_answer cancelled prompt history ready text live =
      let out = stream_chat_response unicode config engine prompt (personality ∷ history) in
      let es = stream_lines out.0 out.1 in
      let c = response_Chunks prompt history in
      (
        es,
        rw (ready, stream_chat)
            (ap streamed (chat_events-stream_lines cancelled 0 out.0 out.1 live)),
        guarded_pass prompt _ ready text,
        stream_lines-IsAnswer out.0 out.1,
        rw (texts-stream_lines out.0 out.1) c.chunks,
        λ h.
            let normal = is_done-stream_lines out.0 out.1 h in
            (
              sym c.ended ∙ normal,
              guarded_pass prompt _ ready text ∙ collected_done out.0 out.1 normal,
              rw (texts-stream_lines out.0 out.1) (whole prompt history normal),
            ),
        λ h.
            let (x, broken) = not_done out.0 out.1 h in
            (
              x,
              sym c.ended ∙ broken,
              broken_lines out.0 out.1 x broken,
              guarded_pass prompt _ ready text ∙ collected_broken out.0 out.1 x broken,
            ),
      )

  -- An answer that ends normally.
  pub chat_normal :
      (prompt : Text) (history : List ChatMessage)
      → engine.ready ≡ ok tt
      → strip prompt ≢ []
      → (answer prompt history).1 ≡ none
      → (cs : List Text) × (chat unicode config engine prompt history
          ≡ success (map chunk cs ++ done ∷ []))
        × (squeeze (concat cs) ≡ squeeze (concat (answer prompt history).0))
  unfolding chat
  chat_normal prompt history ready text normal =
      let out = stream_chat_response unicode config engine prompt (personality ∷ history) in
      let ended : out.1 ≡ none = (response_Chunks prompt history).ended ∙ normal in
      (
        out.0,
        guarded_pass prompt (collected out) ready text ∙ collected_normal out.0 out.1 ended,
        whole prompt history ended,
      )
