-- ===== src/Tts/Tests.antt =====
-- Runs of the bridge, with a generator of one item that then raises, and of the two ways to synthesize.
use bibi_core.Base.{
  none, List, Text-discrete, ◌*◌, ◌/◌, ◌++◌, max, length, Text, codes, lookup, ok, raise, split_on,
  last_or, text_eq, true, ◌⊎◌, ◌<◌, ◌+◌, ◌≡◌, ◌≢◌, false, ◌≤◌, ℕ, refl, true, some, [], ◌∷◌, arith,
}
use bibi_core.Tts.Bridge.{
  Entry, item, Produce, Consume, running, reading, closed, start, failure, sentinel, finished,
  raised, maxsize, Bridge, put_item, put_failure, put_sentinel, take_item, take_failure, Reach,
  here, produce, consume, wait, Wait, poll,
}
use bibi_core.Tts.Bridge.Progress.{work, steps, steps_bounded, Reach-moves, Produce-stopped}
use bibi_core.Paths.{is_plain, path_name, parts, is_part}
use bibi_core.Cache.{find_loaded}
use bibi_core.Manager.{Manager, or_default, get_or_load}
use bibi_core.Manager.Laws.{IsManager}
use bibi_core.Manager.Acquire.{SameCounts}
use bibi_core.Tts.Models.{
  AudioChunk, TtsError, voice_not_found, error_message, Try, Stream, join_bytes, silence,
  mock_stream,
}
use bibi_core.Tts.Service.{status_of, aborted, success, stream_synthesize, create_wav}
use bibi_core.Tts.Service.Laws.{engine_for, stream_synthesize_lem, same_audio}
use bibi_core.Tts.Bridge.Order.{Outcome, Reach-Outcome}

-- The exception has been read, while the sentinel is still in the queue.
abbrev broken_off : Bridge ℕ ℕ
broken_off = record {
  pending = [];
  end = some 9;
  producer = finished;
  queue = sentinel ∷ [];
  stopped = true;
  consumer = raised 9;
  yielded = 7 ∷ [];
}

broken_off-Reach : Reach (7 ∷ []) (some 9) broken_off
broken_off-Reach =
    consume
      (consume
        (produce
          (produce (produce (wait here (poll refl refl)) (put_item 7 [] refl refl (omega arith)))
            (put_failure 9 refl refl refl (omega arith)))
          (put_sentinel refl (omega arith)))
        (take_item 7 (failure 9 ∷ sentinel ∷ []) refl refl))
      (take_failure 9 (sentinel ∷ []) refl refl)

Reach-Outcome_example : Outcome (7 ∷ []) (some 9) broken_off (raised 9) × (1 ≤ maxsize)
Reach-Outcome_example = Reach-Outcome broken_off-Reach

steps_bounded_example :
    (steps broken_off-Reach + work broken_off ≤ 7)
    × (Wait broken_off
        → ((t : Bridge ℕ ℕ) × (e : Entry ℕ ℕ) × Consume broken_off t
            × (broken_off.queue ≡ e ∷ t.queue))
          ⊎ ((t : Bridge ℕ ℕ) × Produce broken_off t × (broken_off.queue ≡ [])))
    × (broken_off.consumer ≢ reading
        → (¬ Wait broken_off)
          × (broken_off.producer ≢ finished → (t : Bridge ℕ ℕ) × Produce broken_off t))
steps_bounded_example = steps_bounded broken_off-Reach

-- One item is in the queue and the generator is about to raise.
abbrev handing_over : Bridge ℕ ℕ
handing_over = record {
  pending = [];
  end = some 9;
  producer = running;
  queue = item 7 ∷ [];
  stopped = false;
  consumer = reading;
  yielded = [];
}

Reach-moves_run :
    ((t : Bridge ℕ ℕ) × (e : Entry ℕ ℕ) × Consume handing_over t
      × (handing_over.queue ≡ e ∷ t.queue))
    ⊎ ((t : Bridge ℕ ℕ) × Produce handing_over t × (handing_over.queue ≡ []))
Reach-moves_run =
    Reach-moves (produce {s = start (7 ∷ []) (some 9)} here (put_item 7 [] refl refl (omega arith)))
      refl

abbrev abandoned : Bridge ℕ ℕ
abandoned = record handing_over { stopped = true; consumer = closed }

Produce-stopped_run : (t : Bridge ℕ ℕ) × Produce abandoned t × (work t < work abandoned)
Produce-stopped_run = Produce-stopped abandoned refl (λ e. cc)

-- An engine whose audio is one silent chunk, and a manager that has it loaded as "amy".
abbrev stream : ℕ → Text → Stream
stream e text = mock_stream text

abbrev load : Text → Try ℕ
load name = raise (voice_not_found name)

abbrev amy_loaded : Manager ℕ
amy_loaded = record {
  default = codes "amy";
  cache = record { engines = (codes "amy", 4) ∷ []; refs = []; max_loaded = 1 };
}

amy_IsManager : IsManager amy_loaded
unfolding lookup
amy_IsManager = record { engines = (refl, tt); refs = tt; positive = λ j. λ e. cc }

stream_synthesize_lem_example :
    let g = engine_for stream load amy_loaded none in
    let out = stream_synthesize stream load (λ j. false) amy_loaded none (codes "hi") in
    IsManager out.0
    × SameCounts amy_loaded out.0
    × ((x : TtsError)
        → g.1 ≡ raise x
        → out.1 ≡ record { sent = []; status = some (status_of x, error_message x) })
    × ((e : ℕ)
        → g.1 ≡ ok e
        → ((rest : List AudioChunk) × (out.1.sent ++ rest ≡ (mock_stream (codes "hi")).0))
          × (((j : ℕ) → false ≡ false)
              → out.1 ≡ record {
                sent = (mock_stream (codes "hi")).0;
                status = aborted (mock_stream (codes "hi")).1;
              }))
stream_synthesize_lem_example =
    stream_synthesize_lem stream load (λ j. false) amy_loaded none (codes "hi") amy_IsManager

abbrev burst : AudioChunk
burst = record {
  bytes = silence (max (22050 / 10) (length (codes "hi") * 200));
  sample_rate = 22050;
  channels = 1;
  sample_width = 2;
}

amy_found : (engine_for stream load amy_loaded none).1 ≡ ok 4
unfolding lookup get_or_load or_default is_plain path_name parts is_part split_on last_or text_eq
    find_loaded Text-discrete
amy_found = refl

same_audio_example :
    (create_wav stream load (λ c. none) (codes "wav") amy_loaded none (codes "hi")).1
    ≡ success (record {
      channels = 1;
      sample_width = 2;
      framerate = 22050;
      frames =
          join_bytes
            (stream_synthesize stream load (λ j. false) amy_loaded none (codes "hi")).1.sent;
    })
unfolding mock_stream
same_audio_example =
    same_audio stream load (λ c. none) (λ j. false) amy_loaded none (codes "hi") 4 burst []
      amy_IsManager amy_found refl refl (λ j. refl)
