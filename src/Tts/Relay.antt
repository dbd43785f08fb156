-- ===== src/Tts/Relay.antt =====
-- `StreamSynthesize` of tts/grpc_servicer.py inside the `with` block: its `async for` loop over
-- `iter_in_thread`, whose producer thread runs meanwhile. `cancelled` says for each chunk whether the
-- client had cancelled when it came.
pub mod Laws
mod Tests
use bibi_core.Base.{ℕ, ◌≡◌, Bool, true, false, Option, none, some, List, [], ◌∷◌, ◌++◌, length}
use bibi_core.Tts.Models.{AudioChunk, TtsError}
use bibi_core.Tts.Bridge.{
  Entry, item, failure, sentinel, Consumer, reading, returned, raised, closed, Bridge, Produce,
  Wait,
}
use bibi_core.Tts.Bridge

pub record Relay : Type 0 where
  pub bridge : Bridge AudioChunk TtsError
  -- the messages of the RPC
  pub sent : List AudioChunk
  -- how the loop ended, if it has: with an exception or without
  pub ended : Option (Option TtsError)

abbrev pub begin : List AudioChunk → Option TtsError → Relay
begin source end = record { bridge = Bridge.start source end; sent = []; ended = none }

-- The coroutine has taken an item.
abbrev pub after_item :
    Bridge AudioChunk TtsError
    → AudioChunk
    → List (Entry AudioChunk TtsError)
    → Bridge AudioChunk TtsError
after_item b a rest = record b { queue = rest; yielded = b.yielded ++ a ∷ [] }

-- The iteration is over, and the `finally` has set `stopped`.
abbrev pub after_end : Bridge AudioChunk TtsError → Consumer TtsError → Bridge AudioChunk TtsError
after_end b c = record b { consumer = c; stopped = true }

module _ (cancelled : ℕ → Bool) where
  -- A step of the producer thread or of the loop.
  pub data Step (s : Relay) : Relay → Type 0 where
    produced :
        (b : Bridge AudioChunk TtsError) → Produce s.bridge b → Step s (record s { bridge = b })
    passed_on :
        (a : AudioChunk) (rest : List (Entry AudioChunk TtsError))
        → s.ended ≡ none
        → s.bridge.consumer ≡ reading
        → s.bridge.queue ≡ item a ∷ rest
        → cancelled (length s.sent) ≡ false
        → Step s (record s { bridge = after_item s.bridge a rest; sent = s.sent ++ a ∷ [] })
    -- `context.cancelled()`: the loop returns and leaves the iteration to the event loop
    gave_up :
        (a : AudioChunk) (rest : List (Entry AudioChunk TtsError))
        → s.ended ≡ none
        → s.bridge.consumer ≡ reading
        → s.bridge.queue ≡ item a ∷ rest
        → cancelled (length s.sent) ≡ true
        → Step s (record s { bridge = after_item s.bridge a rest; ended = some none })
    ran_out :
        (rest : List (Entry AudioChunk TtsError))
        → s.ended ≡ none
        → s.bridge.consumer ≡ reading
        → s.bridge.queue ≡ sentinel ∷ rest
        → Step s (record s {
          bridge = after_end (record s.bridge { queue = rest }) returned;
          ended = some none;
        })
    failed :
        (x : TtsError) (rest : List (Entry AudioChunk TtsError))
        → s.ended ≡ none
        → s.bridge.consumer ≡ reading
        → s.bridge.queue ≡ failure x ∷ rest
        → Step s (record s {
          bridge = after_end (record s.bridge { queue = rest }) (raised x);
          ended = some (some x);
        })

  pub data Reach (source : List AudioChunk) (end : Option TtsError) : Relay → Type 0 where
    here : Reach source end (begin source end)
    next : {s t : Relay} → Reach source end s → Step s t → Reach source end t
    -- from outside: an iteration that was left is closed, or the RPC itself is cancelled
    torn_down :
        {s : Relay}
        → Reach source end s
        → s.bridge.consumer ≡ reading
        → Reach source end (record s { bridge = after_end s.bridge closed })
    -- a retry of `enqueue` or a poll of the iteration
    idle : {s : Relay} → Reach source end s → Wait s.bridge → Reach source end s
