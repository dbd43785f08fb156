-- ===== src/Tts/Sinks.antt =====
-- tts/output/http.py, buffer.py and host.py: the sinks that consume a stream of audio, and
-- tts/play_stream.py.
pub mod Laws
mod Tests
use bibi_core.Base.{ℕ, suc, Bool, true, false, Option, none, some, List, [], ◌∷◌, ◌++◌, Text}
use bibi_core.Tts.Models.{AudioChunk, TtsError, Stream}

abbrev pub after_frame : List ℕ → List (List ℕ) × Option TtsError → List (List ℕ) × Option TtsError
after_frame bytes (frames, x) = (bytes ∷ frames, x)

-- `HttpAudioSink.write`: the frames that were sent and the exception that ended it, if one did;
-- `refuse i` is what `send_bytes` raises for the chunk `i`, if it does.
unfoldable pub write_http :
    (ℕ → Option TtsError) → ℕ → List AudioChunk → Option TtsError → List (List ℕ) × Option TtsError
write_http refuse i [] x = ([], x)
write_http refuse i (c ∷ cs) x =
    let rest = write_http refuse (suc i) cs x in
    elim (refuse i) [ some y ↦ ([], some y) | none ↦ after_frame c.bytes rest ]

-- `BufferSink.write`, on the bytes of the buffer
unfoldable pub write_buffer : List ℕ → List AudioChunk → Option TtsError → List ℕ × Option TtsError
write_buffer buffer [] x = (buffer, x)
write_buffer buffer (c ∷ cs) x = write_buffer (buffer ++ c.bytes) cs x

-- The calls of the audio device.
pub data DeviceCall : Type 0 where
  -- `RawOutputStream` with its rate and channels
  opened : ℕ → ℕ → DeviceCall
  started stopped closed : DeviceCall
  written : List ℕ → DeviceCall

-- What follows the loop: a stream that was opened is stopped and closed, unless an exception leaves.
unfoldable pub end_host : Bool → Option TtsError → List DeviceCall
end_host opened_before (some x) = []
end_host true none = stopped ∷ closed ∷ []
end_host false none = []

-- The loop of `HostAudioSink.write`; the first argument says whether `stream` is not None.
unfoldable pub host_loop : Bool → List AudioChunk → Option TtsError → List DeviceCall
unfolding end_host
host_loop opened_before [] x = end_host opened_before x
host_loop true (c ∷ cs) x = written c.bytes ∷ host_loop true cs x
host_loop false (c ∷ cs) x =
    opened c.sample_rate c.channels ∷ started ∷ written c.bytes ∷ host_loop true cs x

abbrev pub after_call :
    DeviceCall → List DeviceCall × Option TtsError → List DeviceCall × Option TtsError
after_call k (ks, x) = (k ∷ ks, x)

-- The calls in turn, which end with the exception `x`, if there is one; `refuse i` is what the call
-- `i` raises, if it does, and then no other is made.
unfoldable pub perform :
    (ℕ → Option TtsError)
    → ℕ
    → List DeviceCall
    → Option TtsError
    → List DeviceCall × Option TtsError
perform refuse i [] x = ([], x)
perform refuse i (k ∷ ks) x =
    let rest = perform refuse (suc i) ks x in
    elim (refuse i) [ some y ↦ ([], some y) | none ↦ after_call k rest ]

-- `HostAudioSink.write`: the calls that the device took and the exception that ended it, if one did
unfoldable pub write_host :
    (ℕ → Option TtsError) → List AudioChunk → Option TtsError → List DeviceCall × Option TtsError
unfolding host_loop perform
write_host refuse cs x = perform refuse 0 (host_loop false cs x) x

-- `play_stream`, for an engine by its `stream`; `iter_in_thread` hands on the stream as it is.
unfoldable pub play_stream :
    {E : Type 0}
    → (E → Text → Stream)
    → (ℕ → Option TtsError)
    → E
    → Text
    → List DeviceCall × Option TtsError
unfolding write_host
play_stream stream refuse piper text = write_host refuse (stream piper text).0 (stream piper text).1
