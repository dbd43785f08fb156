-- ===== src/Stt/Servicer/Tests.antt =====
-- whisper.cpp, with a client that closes an utterance without audio.
use bibi_core.Base.{ℕ, ◌*◌, ◌/◌, true, false, List, [], ok}
use bibi_core.Base.Int.{ℤ}
use bibi_core.Stt.Models.{Try}
use bibi_core.Stt.Audio.{Resampler}
use bibi_core.Stt.Whisper.{NativeSegment}
use bibi_core.Stt.Servicer.{Message}

abbrev np : Resampler
np = record { rounded_length = λ n from to. n * to / from; interpolate = λ n zs. zs }

-- A model that hears nothing.
abbrev deaf : List ℤ → Try (List (NativeSegment ℕ))
deaf samples = ok []

abbrev marker : Message
marker = record {
  bytes = [];
  sample_rate = 16000;
  channels = 1;
  sample_width = 2;
  end_of_utterance = true;
  cancelled = false;
}
