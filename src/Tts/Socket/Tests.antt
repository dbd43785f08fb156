-- ===== src/Tts/Socket/Tests.antt =====
-- A session with a loaded voice, one without a text and one whose voice is a number.
use bibi_core.Base.{
  ℕ, ◌≡◌, refl, false, none, some, Option, [], ◌∷◌, map, Text, codes, ok, raise, lookup, strip,
  lstrip, rstrip, push_strip, is_space,
}
use bibi_core.Manager.{Manager}
use bibi_core.Manager.Laws.{IsManager}
use bibi_core.Manager.Acquire.{SameCounts}
use bibi_core.Tts.Models.{TtsError, voice_not_found, mock_stream, Try, Stream}
use bibi_core.Tts.Service.{stream_synthesize}
use bibi_core.Tts.Service.Laws.{engine_for}
use bibi_core.Tts.Socket.{
  Request, text, missing, truthy, closed, text_of, voice_of, ending_of, session_of, speak,
  tts_stream,
}
use bibi_core.Tts.Socket.Laws.{tts_stream_lem}

abbrev stream : ℕ → Text → Stream
stream e t = mock_stream t

abbrev load : Text → Try ℕ
load name = raise (voice_not_found name)

-- The client takes every frame.
abbrev willing : ℕ → Option TtsError
willing j = none

abbrev amy_loaded : Manager ℕ
amy_loaded = record {
  default = codes "amy";
  cache = record { engines = (codes "amy", 4) ∷ []; refs = []; max_loaded = 1 };
}

amy_IsManager : IsManager amy_loaded
unfolding lookup
amy_IsManager = record { engines = (refl, tt); refs = tt; positive = λ j. λ e. cc }

blank_refused :
    tts_stream stream load willing amy_loaded
      (record { text = text (codes " \n"); voice = missing })
    ≡ (amy_loaded, record { sent = []; ending = closed 1008 (codes "text is required") })
unfolding tts_stream text_of strip lstrip rstrip push_strip is_space
blank_refused = refl

number_refused :
    tts_stream stream load willing amy_loaded
      (record { text = text (codes "hi"); voice = truthy (codes "no int") })
    ≡ (amy_loaded, record { sent = []; ending = closed 1008 (codes "no int") })
unfolding tts_stream text_of voice_of speak session_of ending_of strip lstrip rstrip push_strip
    is_space
number_refused = refl

abbrev greeting : Request
greeting = record { text = text (codes "hi"); voice = missing }

tts_stream_lem_example :
    let out = tts_stream stream load willing amy_loaded greeting in
    IsManager out.0
    × SameCounts amy_loaded out.0
    × (text_of (text (codes "hi")) ≡ none
        → out ≡ (amy_loaded, record { sent = []; ending = closed 1008 (codes "text is required") }))
    × ((t : Text) (x : TtsError)
        → text_of (text (codes "hi")) ≡ some t
        → voice_of missing ≡ raise x
        → out ≡ (amy_loaded, record { sent = []; ending = ending_of (some x) }))
    × ((t : Text) (voice : Option Text) (x : TtsError)
        → text_of (text (codes "hi")) ≡ some t
        → voice_of missing ≡ ok voice
        → (engine_for stream load amy_loaded voice).1 ≡ raise x
        → out.1 ≡ record { sent = []; ending = ending_of (some x) })
    × ((t : Text) (voice : Option Text) (e : ℕ)
        → text_of (text (codes "hi")) ≡ some t
        → voice_of missing ≡ ok voice
        → (engine_for stream load amy_loaded voice).1 ≡ ok e
        → ((j : ℕ) → willing j ≡ none)
        → ((j : ℕ) → false ≡ false)
        → out.1 ≡ record {
          sent =
              map
                (λ c. c.bytes)
                (stream_synthesize stream load (λ j. false) amy_loaded voice t).1.sent;
          ending = ending_of (mock_stream t).1;
        })
tts_stream_lem_example =
    tts_stream_lem stream load willing (λ j. false) amy_loaded greeting amy_IsManager
