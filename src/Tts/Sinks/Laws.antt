-- ===== src/Tts/Sinks/Laws.antt =====
-- What the three sinks make of one stream.
use bibi_core.Base.{
  ℕ, suc, ◌≡◌, refl, sym, ap, ◌∙◌, true, false, Option, Option-cases, inl, inr, Text, none, some,
  List, [], ◌∷◌, ◌++◌, map, append-nil, append_assoc,
}
use bibi_core.Tts.Models.{AudioChunk, TtsError, join_bytes, Stream}
use bibi_core.Tts.Sinks.{
  write_http, write_buffer, DeviceCall, opened, started, stopped, closed, written, end_host,
  host_loop, perform, write_host, play_stream,
}

abbrev bytes_of : List AudioChunk → List (List ℕ)
bytes_of = map (λ c. c.bytes)

pub write_http_live :
    (refuse : ℕ → Option TtsError) (i : ℕ) (cs : List AudioChunk) (x : Option TtsError)
    → ((j : ℕ) → refuse j ≡ none)
    → write_http refuse i cs x ≡ (map (λ c. c.bytes) cs, x)
unfolding write_http
write_http_live refuse i [] x live = refl
write_http_live refuse i (c ∷ cs) x live =
    rw (live i, write_http) (rw (write_http_live refuse (suc i) cs x live) refl)

write_buffer_lem :
    (buffer : List ℕ) (cs : List AudioChunk) (x : Option TtsError)
    → write_buffer buffer cs x ≡ (buffer ++ join_bytes cs, x)
unfolding write_buffer join_bytes
write_buffer_lem buffer [] x = ap (λ b. (b, x)) (sym (append-nil buffer))
write_buffer_lem buffer (c ∷ cs) x =
    write_buffer_lem (buffer ++ c.bytes) cs x
    ∙ ap (λ b. (b, x)) (append_assoc buffer c.bytes (join_bytes cs))

-- The states of the device.
pub data Device : Type 0 where
  unused ready playing halted : Device

-- A call in its turn; audio in the format of the opened stream.
unfoldable pub next_state : Device → DeviceCall → Option Device
next_state unused (opened rate channels) = some ready
next_state unused started = none
next_state unused (written b) = none
next_state unused stopped = none
next_state unused closed = none
next_state ready (opened rate channels) = none
next_state ready started = some playing
next_state ready (written b) = none
next_state ready stopped = none
next_state ready closed = none
next_state playing (opened rate channels) = none
next_state playing started = none
next_state playing (written b) = some playing
next_state playing stopped = some halted
next_state playing closed = none
next_state halted (opened rate channels) = none
next_state halted started = none
next_state halted (written b) = none
next_state halted stopped = none
next_state halted closed = some unused

unfoldable pub run_calls : Device → List DeviceCall → Option Device
unfolding next_state
run_calls d [] = some d
run_calls d (k ∷ ks) = elim (next_state d k) [ none ↦ none | some d' ↦ run_calls d' ks ]

-- What the calls play.
unfoldable pub heard : List DeviceCall → List ℕ
heard [] = []
heard (written b ∷ ks) = b ++ heard ks
heard (opened rate channels ∷ ks) = heard ks
heard (started ∷ ks) = heard ks
heard (stopped ∷ ks) = heard ks
heard (closed ∷ ks) = heard ks

-- Where the device is left.
abbrev pub left_over : List AudioChunk → Option TtsError → Device
left_over cs none = unused
left_over [] (some x) = unused
left_over (c ∷ cs) (some x) = playing

abbrev playing_until : Option TtsError → Device
playing_until none = unused
playing_until (some x) = playing

host_loop_playing :
    (cs : List AudioChunk) (x : Option TtsError)
    → (run_calls playing (host_loop true cs x) ≡ some (playing_until x))
      × (heard (host_loop true cs x) ≡ join_bytes cs)
unfolding host_loop end_host run_calls heard join_bytes
host_loop_playing [] none = (refl, refl)
host_loop_playing [] (some x) = (refl, refl)
host_loop_playing (c ∷ cs) x =
    let (ran, same) = host_loop_playing cs x in (ran, ap (λ b. c.bytes ++ b) same)

host_loop_lem :
    (cs : List AudioChunk) (x : Option TtsError)
    → (run_calls unused (host_loop false cs x) ≡ some (left_over cs x))
      × (heard (host_loop false cs x) ≡ join_bytes cs)
unfolding host_loop end_host run_calls heard join_bytes
host_loop_lem [] none = (refl, refl)
host_loop_lem [] (some x) = (refl, refl)
host_loop_lem (c ∷ cs) none =
    let (ran, same) = host_loop_playing cs none in (ran, ap (λ b. c.bytes ++ b) same)
host_loop_lem (c ∷ cs) (some x) =
    let (ran, same) = host_loop_playing cs (some x) in (ran, ap (λ b. c.bytes ++ b) same)

pub perform_live :
    (refuse : ℕ → Option TtsError) (i : ℕ) (ks : List DeviceCall) (x : Option TtsError)
    → ((j : ℕ) → refuse j ≡ none)
    → perform refuse i ks x ≡ (ks, x)
unfolding perform
perform_live refuse i [] x live = refl
perform_live refuse i (k ∷ ks) x live =
    rw (live i, perform) (rw (perform_live refuse (suc i) ks x live) refl)

-- The calls that a device takes are the first of those to make.
perform_beginning :
    (refuse : ℕ → Option TtsError) (i : ℕ) (ks : List DeviceCall) (x : Option TtsError)
    → (rest : List DeviceCall) × ((perform refuse i ks x).0 ++ rest ≡ ks)
unfolding perform
perform_beginning refuse i [] x = ([], refl)
perform_beginning refuse i (k ∷ ks) x = elim (Option-cases (refuse i)) [
  | inl live ↦
      let (rest, same) = perform_beginning refuse (suc i) ks x in
      (rest, rw (live, perform) (ap (λ ds. k ∷ ds) same))
  | inr (y, failed) ↦ (k ∷ ks, rw (failed, perform) refl)
]

heard-++ : (ks ls : List DeviceCall) → heard (ks ++ ls) ≡ heard ks ++ heard ls
unfolding heard
heard-++ [] ls = refl
heard-++ (written b ∷ ks) ls =
    ap (λ c. b ++ c) (heard-++ ks ls) ∙ sym (append_assoc b (heard ks) (heard ls))
heard-++ (opened rate channels ∷ ks) ls = heard-++ ks ls
heard-++ (started ∷ ks) ls = heard-++ ks ls
heard-++ (stopped ∷ ks) ls = heard-++ ks ls
heard-++ (closed ∷ ks) ls = heard-++ ks ls

-- What a device that may refuse calls plays is the beginning of the audio of the stream.
pub write_host_beginning :
    (refuse : ℕ → Option TtsError) (cs : List AudioChunk) (x : Option TtsError)
    → (rest : List ℕ) × (heard (write_host refuse cs x).0 ++ rest ≡ join_bytes cs)
unfolding write_host
write_host_beginning refuse cs x =
    let (left, same) = perform_beginning refuse 0 (host_loop false cs x) x in
    (
      heard left,
      sym (heard-++ (write_host refuse cs x).0 left) ∙ ap heard same ∙ (host_loop_lem cs x).1,
    )

-- The three sinks make the same audio of one stream: for a client that takes every frame, the
-- frames are the bytes of the chunks, the buffer holds them joined, and a device that takes every
-- call plays them joined, each with the exception that ends the stream; the device is opened,
-- started, stopped and closed in this order, and only an exception after the first chunk leaves
-- it playing.
pub sinks_agree :
    (refuse : ℕ → Option TtsError) (cs : List AudioChunk) (x : Option TtsError)
    → ((j : ℕ) → refuse j ≡ none)
    → (write_http refuse 0 cs x ≡ (map (λ c. c.bytes) cs, x))
      × (write_buffer [] cs x ≡ (join_bytes cs, x))
      × (heard (write_host refuse cs x).0 ≡ join_bytes cs)
      × ((write_host refuse cs x).1 ≡ x)
      × (run_calls unused (write_host refuse cs x).0 ≡ some (left_over cs x))
unfolding write_host
sinks_agree refuse cs x live =
    let (ran, same) = host_loop_lem cs x in
    let performed = perform_live refuse 0 (host_loop false cs x) x live in
    (
      write_http_live refuse 0 cs x live,
      write_buffer_lem [] cs x,
      rw performed same,
      rw performed,
      rw performed ran,
    )

-- `play_stream` plays the audio of the engine for the text up to a call that the device refuses, and
-- all of it, with the exception that ends the engine's stream, if the device takes every call.
play_stream_lem :
    {E : Type 0} (stream : E → Text → Stream) (refuse : ℕ → Option TtsError) (piper : E)
    (text : Text)
    → ((rest : List ℕ) × (heard (play_stream stream refuse piper text).0 ++ rest
          ≡ join_bytes (stream piper text).0))
      × (((j : ℕ) → refuse j ≡ none)
          → (heard (play_stream stream refuse piper text).0 ≡ join_bytes (stream piper text).0)
            × ((play_stream stream refuse piper text).1 ≡ (stream piper text).1))
unfolding play_stream
play_stream_lem stream refuse piper text =
    let (cs, x) = stream piper text in
    (
      write_host_beginning refuse cs x,
      λ live. let (_, _, same, ended, _) = sinks_agree refuse cs x live in (same, ended),
    )
