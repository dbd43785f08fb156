-- ===== src/Tts/Sinks/Tests.antt =====
-- Two chunks, after which the generator raises.
use bibi_core.Base.{◌≡◌, refl, none, some, List, [], ◌∷◌, codes}
use bibi_core.Tts.Models.{AudioChunk, TtsError, unexpected, join_bytes}
use bibi_core.Tts.Sinks.{write_http, write_buffer, write_host}
use bibi_core.Tts.Sinks.Laws.{heard, run_calls, unused, playing, sinks_agree}

abbrev chunk : AudioChunk
chunk = record { bytes = 1 ∷ 2 ∷ []; sample_rate = 22050; channels = 1; sample_width = 2 }

abbrev chunks : List AudioChunk
chunks = chunk ∷ record chunk { bytes = 3 ∷ 4 ∷ [] } ∷ []

abbrev broken : TtsError
broken = unexpected (codes "out of memory")

sinks_agree_run :
    (write_http (λ j. none) 0 chunks (some broken)
      ≡ ((1 ∷ 2 ∷ []) ∷ (3 ∷ 4 ∷ []) ∷ [], some broken))
    × (write_buffer [] chunks (some broken) ≡ (join_bytes chunks, some broken))
    × (heard (write_host (λ j. none) chunks (some broken)).0 ≡ join_bytes chunks)
    × ((write_host (λ j. none) chunks (some broken)).1 ≡ some broken)
    × (run_calls unused (write_host (λ j. none) chunks (some broken)).0 ≡ some playing)
sinks_agree_run = sinks_agree (λ j. none) chunks (some broken) (λ j. refl)
