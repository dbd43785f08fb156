-- ===== src/Stt/Servicer/Runs.antt =====
-- `StreamTranscribe` among the requests that share the manager.
use bibi_core.Base.{ℕ, ◌<◌, ◌≡◌, Option, none, List, [], Result, ok, Text, Text-discrete, codes}
use bibi_core.Cache.Threads.{idle, System, Reach}
use bibi_core.Manager.Runs.{Run, manager, untouched-IsInside, acquire_engine-Runs}
use bibi_core.Stt.Models.{
  AudioChunk, AudioFormatSpec, Transcript, SttError, Try, model_not_found, unexpected,
}
use bibi_core.Stt.Audio.{Resampler}
use bibi_core.Stt.Servicer.{
  Message, EventType, Emitted, prepare_and_transcribe, utterance_loop, stream_transcribe,
}

module _ {E F : Type 0} (np : Resampler) (required : Option AudioFormatSpec)
    (transcribe : E → List AudioChunk → Try (Transcript F)) (load : Text → Try E) where
  -- In a reachable state of the requests, StreamTranscribe of an idle thread is a run of the
  -- threads: it ends with the cache that StreamTranscribe leaves, and with the thread idle again.
  pub stream_transcribe-Runs :
      {n most : ℕ} (i : ℕ)
      → i < n
      → {s : System Text E} (default : Text) (messages : List Message)
      → Reach Text-discrete n most s
      → s.threads i ≡ idle
      → (t : System Text E) × Run n s t
        × (t.cache
            ≡ (stream_transcribe np required transcribe load (manager default s) messages).0.cache)
        × (t.threads i ≡ idle)
  unfolding stream_transcribe
  stream_transcribe-Runs {n} {most} i run {s} default messages r at =
      let work : E → Result SttError (Emitted (EventType × Transcript F)) =
        λ e. ok (utterance_loop (prepare_and_transcribe np required transcribe e) [] messages) in
      acquire_engine-Runs model_not_found (unexpected (codes "KeyError")) load
        (λ held e. (held, work e)) i run none default (untouched-IsInside work n most i) r at
