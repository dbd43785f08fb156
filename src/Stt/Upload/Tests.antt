-- ===== src/Stt/Upload/Tests.antt =====
-- A short stereo file, uploaded to a manager with one model.
use bibi_core.Base.{
  ℕ, ◌≡◌, refl, true, false, none, some, List, [], ◌∷◌, arith, lookup, Text, codes, ok, raise, All,
}
use bibi_core.Manager.{Manager}
use bibi_core.Manager.Laws.{IsManager}
use bibi_core.Manager.Acquire.{SameCounts}
use bibi_core.Stt.Models.{SttError, AudioChunk, Transcript, model_not_found, Try}
use bibi_core.Stt.Audio.{Resampler}
use bibi_core.Stt.Whisper.Laws.{join_bytes}
use bibi_core.Stt.Upload.{
  WavFile, wav_chunks, http_error, responded, is_wav_type, transcribe_file, upload,
}
use bibi_core.Stt.Upload.Laws.{IsBlock, wav_chunks_lem, engine_for, upload_lem}

abbrev stereo : WavFile
stereo = record {
  sample_rate = 8000;
  channels = 2;
  sample_width = 2;
  frames = 1 ∷ 2 ∷ 3 ∷ 4 ∷ 5 ∷ 6 ∷ 7 ∷ 8 ∷ [];
}

wav_chunks_lem_example :
    (join_bytes (wav_chunks stereo) ≡ 1 ∷ 2 ∷ 3 ∷ 4 ∷ 5 ∷ 6 ∷ 7 ∷ 8 ∷ [])
    × All (IsBlock stereo) (wav_chunks stereo)
wav_chunks_lem_example = wav_chunks_lem stereo (omega arith)

abbrev np : Resampler
np = record { rounded_length = λ n from to. n; interpolate = λ n zs. zs }

abbrev transcribe : ℕ → List AudioChunk → Try (Transcript ℕ)
transcribe e chunks = ok (record {
  lang = none;
  segments = record { start_ms = 0; end_ms = 1; text = codes "hi"; score = some 7 } ∷ [];
})

abbrev load : Text → Try ℕ
load name = raise (model_not_found name)

abbrev open_wav : List ℕ → Try WavFile
open_wav content = ok (record stereo { frames = content })

abbrev base_loaded : Manager ℕ
base_loaded = record {
  default = codes "base";
  cache = record { engines = (codes "base", 4) ∷ []; refs = []; max_loaded = 1 };
}

base_IsManager : IsManager base_loaded
unfolding lookup
base_IsManager = record { engines = (refl, tt); refs = tt; positive = λ j. λ e. cc }

upload_lem_run :
    let g = engine_for np none transcribe load open_wav (λ x. false) base_loaded none in
    let out =
      upload np none transcribe load open_wav
        (λ x. false)
        base_loaded
        (codes "audio/wav")
        none
        (1 ∷ 2 ∷ []) in
    IsManager out.0
    × SameCounts base_loaded out.0
    × ((is_wav_type (codes "audio/wav") ≡ false)
        → (out.0 ≡ base_loaded)
          × (out.1 ≡ http_error 400 [] (codes "Only wav files are supported")))
    × ((is_wav_type (codes "audio/wav") ≡ true)
        → ((x : SttError) → g.1 ≡ raise x → out.1 ≡ responded (λ x. false) (raise x))
          × ((e : ℕ)
              → g.1 ≡ ok e
              → out.1
                ≡ responded
                    (λ x. false)
                    (transcribe_file np none transcribe load open_wav (λ x. false) e (1 ∷ 2 ∷ []))))
upload_lem_run =
    upload_lem np none transcribe load open_wav (λ x. false) base_loaded (codes "audio/wav") none
      (1 ∷ 2 ∷ []) base_IsManager
