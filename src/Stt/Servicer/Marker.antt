-- ===== src/Stt/Servicer/Marker.antt =====
-- The end marker without audio, as internal/ws/session.go sends it, at stt/grpc_servicer.py and
-- stt/engines/whispercpp_engine.py.
use bibi_core.Base.{◌*◌, ◌≡◌, true, false, some, List, [], ◌∷◌, ok, raise, arith, codes}
use bibi_core.Base.Int.{ℤ}
use bibi_core.Stt.Models.{AudioChunk, Transcript, SttError, Try, invalid_audio_format}
use bibi_core.Stt.Audio.{Resampler, Duration, bytes_per_second, calculate_duration, at_least}
use bibi_core.Stt.Audio.Laws.{HasFormat, convert_chunks_same}
use bibi_core.Stt.Whisper.{NativeSegment, required_format, pcm_to_samples, transcribe}
use bibi_core.Stt.Whisper.Laws.{join_bytes, convert_audio-prepared}
use bibi_core.Stt.Servicer.{
  Message, chunk_from_proto, partial, window_seconds, flush, utterance_loop, prepare_and_transcribe,
}
use bibi_core.Stt.Servicer.Stream.{loop_final, loop_partial, duration_ok, HasRate}

-- No audio, in the engine's own format.
abbrev pub IsMarker : Message → Type 0
IsMarker m =
    (m.bytes ≡ [])
    × (m.end_of_utterance ≡ true)
    × (m.cancelled ≡ false)
    × HasFormat required_format (chunk_from_proto m)

abbrev pub no_data : SttError
no_data = invalid_audio_format (codes "Audio source produced no data")

HasFormat-HasRate : (c : AudioChunk) → HasFormat required_format c → HasRate c
unfolding bytes_per_second
HasFormat-HasRate c (r, n, w) e =
    let p : c.sample_rate * c.channels * c.sample_width ≡ 32000 = rw (r, n, w) in omega arith

module _ {F : Type 0} (np : Resampler) (model : List ℤ → Try (List (NativeSegment F))) where
  -- What the servicer runs on a window, with whisper.cpp as the engine.
  abbrev pub whisper_run : List AudioChunk → Try (Transcript F)
  whisper_run =
      prepare_and_transcribe np (some required_format) (λ (_ : Unit {0}). transcribe model) tt

  marker_bytes : (m : Message) → m.bytes ≡ [] → join_bytes (chunk_from_proto m ∷ []) ≡ []
  unfolding join_bytes chunk_from_proto
  marker_bytes m h = rw h

  marker_run : (m : Message) → IsMarker m → whisper_run (chunk_from_proto m ∷ []) ≡ raise no_data
  unfolding prepare_and_transcribe transcribe pcm_to_samples
  marker_run m (empty, _, _, format) =
      let same = convert_chunks_same np required_format (chunk_from_proto m ∷ []) (format, tt) in
      let (read, _) = convert_audio-prepared np _ _ same in rw (same, read, marker_bytes m empty)

  -- With whisper.cpp as the engine, when one message that is not the last fills a window by
  -- itself and is transcribed, and the next is the end marker without audio in the format of
  -- the engine, neither cancelled, the stream is that PARTIAL event and then the exception for
  -- audio without data, with no FINAL event.
  pub marker_after_flush :
      (first marker : Message) (d : Duration) (t : Transcript F) (ms : List Message)
      → first.cancelled ≡ false
      → first.end_of_utterance ≡ false
      → calculate_duration (chunk_from_proto first ∷ []) ≡ ok d
      → at_least d window_seconds ≡ true
      → whisper_run (chunk_from_proto first ∷ []) ≡ ok t
      → IsMarker marker
      → utterance_loop whisper_run [] (first ∷ marker ∷ ms) ≡ ((partial, t) ∷ [], some no_data)
  unfolding flush
  marker_after_flush first marker d t ms live more dur full done h =
      let (d', dur') =
        duration_ok (chunk_from_proto marker ∷ [])
          (HasFormat-HasRate (chunk_from_proto marker) h.3, tt) in
      rw (
        loop_partial whisper_run [] first (marker ∷ ms) d live dur more full,
        loop_final whisper_run [] marker ms d' h.2 dur' h.1,
        done,
        marker_run marker h,
      )
