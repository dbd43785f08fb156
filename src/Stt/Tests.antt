-- ===== src/Stt/Tests.antt =====
-- Runs of the speech-to-text service: 16 kHz mono chunks of short silence, and a model that always
-- gives one segment.
use bibi_core.Base.{
  map, ℕ, Option, if◌then◌else◌, leb, ◌*◌, ◌/◌, ◌≡◌, ◌≢◌, refl, Bool, true, false, none, some, List,
  [], ◌∷◌, arith, All, length, lookup, Text, codes, ok, raise, ◌>>=◌,
}
use bibi_core.Base.Int.{ℤ, pos, negsuc}
use bibi_core.Manager.{Manager}
use bibi_core.Manager.Laws.{IsManager}
use bibi_core.Manager.Acquire.{SameCounts}
use bibi_core.Stt.Models.{SttError, AudioChunk, Transcript, model_not_found, unexpected, Try}
use bibi_core.Stt.Samples.{to_int16, from_int16, read_int16}
use bibi_core.Stt.Samples.Laws.{to_int16-from_int16}
use bibi_core.Stt.Audio.{
  Resampler, calculate_duration, total_bytes, bytes_per_second, at_least, same_format,
  convert_chunk, convert_chunks,
}
use bibi_core.Stt.Audio.Laws.{HasFormat, convert_chunks-HasFormat}
use bibi_core.Stt.Whisper.{
  NativeSegment, required_format, convert_audio, collect, validate_chunk, pcm_to_samples,
  transcribe,
}
use bibi_core.Stt.Whisper.Laws.{join_bytes, convert_audio-prepared}
use bibi_core.Stt.Servicer.{
  Message, partial, chunk_from_proto, utterance_loop, prepare_and_transcribe, stream_transcribe,
}
use bibi_core.Stt.Servicer.Stream.{Covers, utterance_loop-Covers}
use bibi_core.Stt.Servicer.Events.{IsResponse, stream_transcribe-IsResponse}
use bibi_core.Stt.Socket.{receive_chunk, window_loop, ending_of, text_of, transcribe_stream}
use bibi_core.Stt.Socket.Laws.{
  message_of, as_partial, stays, taken, utterance_loop-window_loop, run_with, default_engine,
  transcribe_stream_lem,
}
use bibi_core.Stt.Servicer.Marker.{whisper_run, no_data, marker_after_flush}

abbrev np : Resampler
np = record { rounded_length = λ n from to. n * to / from; interpolate = λ n zs. zs }

abbrev chunk : AudioChunk
chunk = record {
  bytes = 1 ∷ 0 ∷ 255 ∷ 255 ∷ [];
  sample_rate = 16000;
  channels = 1;
  sample_width = 2;
}

abbrev chunks : List AudioChunk
chunks = chunk ∷ chunk ∷ []

to_int16-from_int16_example :
    ((from_int16 (pos 7 ∷ negsuc 299 ∷ []) 2 >>= λ out. to_int16 out 2)
      ≡ ok (pos 7 ∷ negsuc 299 ∷ []))
    × ((from_int16 (pos 7 ∷ negsuc 299 ∷ []) 4 >>= λ out. to_int16 out 4)
        ≡ ok (pos 7 ∷ negsuc 299 ∷ []))
    × ((to_int16 (0 ∷ 200 ∷ []) 1 >>= λ out. from_int16 out 1) ≡ ok (0 ∷ 200 ∷ []))
to_int16-from_int16_example =
    to_int16-from_int16 (pos 7 ∷ negsuc 299 ∷ []) (0 ∷ 200 ∷ []) (omega arith, (omega arith, tt))
      (omega arith, (omega arith, tt))

prepared : convert_chunks np chunks (some required_format) ≡ ok chunks
unfolding convert_chunks convert_chunk same_format
prepared = refl

convert_chunks-HasFormat_run :
    All (HasFormat required_format) chunks
    × (length chunks ≡ length chunks)
    × (All (HasFormat required_format) chunks → chunks ≡ chunks)
convert_chunks-HasFormat_run = convert_chunks-HasFormat np required_format chunks chunks prepared

convert_audio-prepared_run :
    (convert_audio chunks ≡ pcm_to_samples (join_bytes chunks))
    × (join_bytes chunks ≢ [] → convert_audio chunks ≡ read_int16 (join_bytes chunks))
convert_audio-prepared_run = convert_audio-prepared np chunks chunks prepared

-- Two bytes are two seconds of this client's audio.
abbrev message : Bool → List ℕ → Message
message last bytes = record {
  bytes = bytes;
  sample_rate = 1;
  channels = 1;
  sample_width = 1;
  end_of_utterance = last;
  cancelled = false;
}

abbrev messages : List Message
messages = message false (0 ∷ 0 ∷ []) ∷ message false (0 ∷ 0 ∷ 0 ∷ []) ∷ message true [] ∷ []

utterance_loop-Covers_example :
    Covers (length {A = AudioChunk}) [] messages (utterance_loop (λ cs. ok (length cs)) [] messages)
unfolding bytes_per_second chunk_from_proto
utterance_loop-Covers_example = utterance_loop-Covers length [] messages tt (
  (refl, λ e. omega (arith, e)),
  ((refl, λ e. omega (arith, e)), ((refl, λ e. omega (arith, e)), tt)),
)

abbrev base_loaded : Manager ℕ
base_loaded = record {
  default = codes "base";
  cache = record { engines = (codes "base", 4) ∷ []; refs = []; max_loaded = 1 };
}

base_IsManager : IsManager base_loaded
unfolding lookup
base_IsManager = record { engines = (refl, tt); refs = tt; positive = λ j. λ e. cc }

abbrev silence : ℕ → List AudioChunk → Try (Transcript ℕ)
silence e cs = ok (record { segments = []; lang = none })

abbrev load : Text → Try ℕ
load name = raise (model_not_found name)

stream_transcribe-IsResponse_example :
    let out = stream_transcribe np none silence load base_loaded messages in
    IsResponse out.1 × IsManager out.0 × SameCounts base_loaded out.0
stream_transcribe-IsResponse_example =
    stream_transcribe-IsResponse np silence load none base_loaded messages base_IsManager

-- Five seconds of that audio, and the end of the utterance without any.
abbrev five_seconds : Message
five_seconds = message false (128 ∷ 128 ∷ 128 ∷ 128 ∷ 128 ∷ [])

abbrev marker : Message
marker = record {
  bytes = [];
  sample_rate = 16000;
  channels = 1;
  sample_width = 2;
  end_of_utterance = true;
  cancelled = false;
}

abbrev model : List ℤ → Try (List (NativeSegment ℕ))
model zs = ok []

abbrev nothing_said : Transcript ℕ
nothing_said = record { segments = []; lang = none }

transcribed : whisper_run np model (chunk_from_proto five_seconds ∷ []) ≡ ok nothing_said
unfolding prepare_and_transcribe transcribe convert_audio collect validate_chunk pcm_to_samples
    read_int16 convert_chunks convert_chunk chunk_from_proto to_int16 from_int16
transcribed = refl

marker_after_flush_example :
    utterance_loop (whisper_run np model) [] (five_seconds ∷ marker ∷ [])
    ≡ ((partial, nothing_said) ∷ [], some no_data)
unfolding calculate_duration at_least total_bytes bytes_per_second chunk_from_proto
marker_after_flush_example =
    marker_after_flush np model five_seconds marker (record { total_bytes = 5; per_second = 1 })
      nothing_said [] refl refl refl refl transcribed (refl, refl, refl, (refl, refl, refl))

abbrev frames : List (List ℕ)
frames = (1 ∷ 0 ∷ []) ∷ (2 ∷ 0 ∷ []) ∷ []

utterance_loop-window_loop_example :
    utterance_loop (λ cs. ok (length cs)) [] (map message_of frames)
    ≡ as_partial (window_loop (λ cs. ok (length cs)) stays 0 [] (map receive_chunk frames))
utterance_loop-window_loop_example = utterance_loop-window_loop (λ cs. ok (length cs)) 0 [] frames

-- A client that is gone when the second transcript is sent to it.
abbrev gone_after_one : ℕ → Option SttError
gone_after_one i = if leb 1 i then some (unexpected (codes "WebSocketDisconnect")) else none

transcribe_stream_lem_example :
    let g = default_engine np none silence load base_loaded in
    let out = transcribe_stream np none silence load gone_after_one base_loaded frames in
    IsManager out.0
    × SameCounts base_loaded out.0
    × ((x : SttError) → g.1 ≡ raise x → out.1 ≡ record { sent = []; end = ending_of (some x) })
    × ((e : ℕ)
        → g.1 ≡ ok e
        → let r = utterance_loop (run_with np none silence load e) [] (map message_of frames) in
          let s = taken gone_after_one 0 r.0 r.1 in
          (out.1 ≡ record { sent = map (λ p. text_of p.1) s.0; end = ending_of s.1 })
          × (((j : ℕ) → gone_after_one j ≡ none)
              → out.1 ≡ record { sent = map (λ p. text_of p.1) r.0; end = ending_of r.1 }))
transcribe_stream_lem_example =
    transcribe_stream_lem np none silence load gone_after_one base_loaded frames base_IsManager
