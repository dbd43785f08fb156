-- ===== src/Stt/Servicer/Refusals.antt =====
-- The exceptions for the format of the audio that end a stream of stt/grpc_servicer.py, with whisper.cpp
-- as the engine.
use bibi_core.Base.{◌≡◌, ◌⊎◌, true, some, List, [], ◌∷◌, ◌++◌, map, Text, ok, raise}
use bibi_core.Stt.Models.{AudioChunk, invalid_audio_format}
use bibi_core.Stt.Audio.{Resampler, Duration, calculate_duration, at_least, convert_chunks}
use bibi_core.Stt.Whisper.{required_format}
use bibi_core.Stt.Whisper.Laws.{join_bytes}
use bibi_core.Stt.Servicer.{Message, chunk_from_proto, window_seconds}
use bibi_core.Stt.Servicer.Marker.{no_data}

-- A message after which the loop transcribes the buffer, which holds its chunk.
abbrev Ends : List AudioChunk → Message → Type 0
Ends grown last =
    (last.end_of_utterance ≡ true)
    ⊎ ((d : Duration) × (calculate_duration grown ≡ ok d) × (at_least d window_seconds ≡ true))

-- A message after which the loop transcribes what it has read since the window began.
abbrev pub Closes : List Message → Message → Type 0
Closes window last = Ends (map chunk_from_proto (window ++ last ∷ [])) last

-- A window begins with the stream, or after a message that ended one.
abbrev pub Starts : List Message → Type 0
Starts before =
    (before ≡ [])
    ⊎ ((earlier : List Message) × (window : List Message) × (last : Message) × (before
          ≡ earlier ++ (window ++ last ∷ []))
        × Closes window last)

-- None of these messages ends the window that begins with the first.
abbrev pub IsOpen : List Message → Type 0
IsOpen window =
    (first : List Message) (m : Message) (rest : List Message)
    → window ≡ first ++ m ∷ rest
    → ¬ Closes first m

-- Why such a window is refused: its audio in the format of the engine has no bytes at all, or it cannot
-- be brought into that format.
abbrev pub Refused : Resampler → List AudioChunk → Text → Type 0
Refused np chunks t =
    ((prepared : List AudioChunk) × (convert_chunks np chunks (some required_format) ≡ ok prepared)
      × (join_bytes prepared ≡ [])
      × (invalid_audio_format t ≡ no_data))
    ⊎ (convert_chunks np chunks (some required_format) ≡ raise (invalid_audio_format t))

-- The window stands in the stream.
pub record Explained (np : Resampler) (messages : List Message) (t : Text) : Type 0 where
  pub before : List Message
  pub window : List Message
  pub last : Message
  pub after : List Message
  pub in_stream : messages ≡ before ++ (window ++ last ∷ after)
  pub starts : Starts before
  pub open_before : IsOpen window
  pub closes : Closes window last
  pub refused : Refused np (map chunk_from_proto (window ++ last ∷ [])) t
