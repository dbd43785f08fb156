-- ===== src/Tts/Bridge.antt =====
-- `iter_in_thread` of tts/utils/async_io.py: a producer thread runs a blocking generator and hands its
-- items over through a bounded queue to the coroutine that iterates. The generator is the list of its
-- items, with the exception that ends it, if one does. A step is one action of either side; a
-- retry of `enqueue` and a poll of the consumer are rounds that change nothing. A put does not ask
-- for `stopped`, since the test of `enqueue` may be old by the time of its put.
pub mod Order
pub mod Progress
use bibi_core.Base.{
  ℕ, ◌<◌, ◌≡◌, Bool, true, false, Option, none, some, List, [], ◌∷◌, ◌++◌, map, length,
}

pub data Entry (A X : Type 0) : Type 0 where
  item : A → Entry A X
  failure : X → Entry A X
  sentinel : Entry A X

pub data Producer : Type 0 where
  -- in the `for` loop
  running : Producer
  -- in the `finally`
  ending : Producer
  finished : Producer

pub data Consumer (X : Type 0) : Type 0 where
  reading : Consumer X
  returned : Consumer X
  raised : X → Consumer X
  -- the iteration was abandoned or cancelled
  closed : Consumer X

abbrev pub maxsize : ℕ
maxsize = 8

pub record Bridge (A X : Type 0) : Type 0 where
  -- what the generator has not produced yet, and how it ends
  pub pending : List A
  pub end : Option X
  pub producer : Producer
  pub queue : List (Entry A X)
  pub stopped : Bool
  pub consumer : Consumer X
  pub yielded : List A

abbrev pub start : {A X : Type 0} → List A → Option X → Bridge A X
start source end = record {
  pending = source;
  end = end;
  producer = running;
  queue = [];
  stopped = false;
  consumer = reading;
  yielded = [];
}

module _ {A X : Type 0} where
  -- A step of the producer thread.
  pub data Produce (s : Bridge A X) : Bridge A X → Type 0 where
    put_item :
        (a : A) (rest : List A)
        → s.producer ≡ running
        → s.pending ≡ a ∷ rest
        → length s.queue < maxsize
        → Produce s (record s { pending = rest; queue = s.queue ++ item a ∷ [] })
    -- `enqueue` gives up on an item that it could not place before the stop
    drop_item :
        (a : A) (rest : List A)
        → s.producer ≡ running
        → s.pending ≡ a ∷ rest
        → s.stopped ≡ true
        → Produce s (record s { pending = rest })
    -- `if stopped.is_set(): break`
    break_loop :
        s.producer ≡ running → s.stopped ≡ true → Produce s (record s { producer = ending })
    exhausted :
        s.producer ≡ running
        → s.pending ≡ []
        → s.end ≡ none
        → Produce s (record s { producer = ending })
    put_failure :
        (x : X)
        → s.producer ≡ running
        → s.pending ≡ []
        → s.end ≡ some x
        → length s.queue < maxsize
        → Produce s (record s { producer = ending; queue = s.queue ++ failure x ∷ [] })
    drop_failure :
        (x : X)
        → s.producer ≡ running
        → s.pending ≡ []
        → s.end ≡ some x
        → s.stopped ≡ true
        → Produce s (record s { producer = ending })
    put_sentinel :
        s.producer ≡ ending
        → length s.queue < maxsize
        → Produce s (record s { producer = finished; queue = s.queue ++ sentinel ∷ [] })
    drop_sentinel :
        s.producer ≡ ending → s.stopped ≡ true → Produce s (record s { producer = finished })

  -- A step of the coroutine.
  pub data Consume (s : Bridge A X) : Bridge A X → Type 0 where
    take_item :
        (a : A) (rest : List (Entry A X))
        → s.consumer ≡ reading
        → s.queue ≡ item a ∷ rest
        → Consume s (record s { queue = rest; yielded = s.yielded ++ a ∷ [] })
    take_failure :
        (x : X) (rest : List (Entry A X))
        → s.consumer ≡ reading
        → s.queue ≡ failure x ∷ rest
        → Consume s (record s { queue = rest; consumer = raised x; stopped = true })
    take_sentinel :
        (rest : List (Entry A X))
        → s.consumer ≡ reading
        → s.queue ≡ sentinel ∷ rest
        → Consume s (record s { queue = rest; consumer = returned; stopped = true })
    close : s.consumer ≡ reading → Consume s (record s { consumer = closed; stopped = true })

  -- A round of a loop that waits: `enqueue` finds the queue full and tries again, since `stopped` is
  -- not set, or the consumer finds it empty and sleeps.
  pub data Wait (s : Bridge A X) : Type 0 where
    retry_item :
        (a : A) (rest : List A)
        → s.producer ≡ running
        → s.pending ≡ a ∷ rest
        → length s.queue ≡ maxsize
        → s.stopped ≡ false
        → Wait s
    retry_failure :
        (x : X)
        → s.producer ≡ running
        → s.pending ≡ []
        → s.end ≡ some x
        → length s.queue ≡ maxsize
        → s.stopped ≡ false
        → Wait s
    retry_sentinel : s.producer ≡ ending → length s.queue ≡ maxsize → s.stopped ≡ false → Wait s
    poll : s.consumer ≡ reading → s.queue ≡ [] → Wait s

  pub data Reach (source : List A) (end : Option X) : Bridge A X → Type 0 where
    here : Reach source end (start source end)
    produce : {s t : Bridge A X} → Reach source end s → Produce s t → Reach source end t
    consume : {s t : Bridge A X} → Reach source end s → Consume s t → Reach source end t
    wait : {s : Bridge A X} → Reach source end s → Wait s → Reach source end s
