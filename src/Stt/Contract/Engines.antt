-- ===== src/Stt/Contract/Engines.antt =====
-- The two engines of stt/engines/ keep the contract.
use bibi_core.Base.{ℕ, refl, none, some, List, [], ◌∷◌, ◌++◌, Text, codes, ok}
use bibi_core.Base.Int.{ℤ}
use bibi_core.Catalogue.{is_file, whisper_available}
use bibi_core.Catalogue.Laws.{whisper_available_iff}
use bibi_core.Stt.Models.{Try}
use bibi_core.Stt.Audio.{Duration}
use bibi_core.Stt.Whisper.{
  NativeSegment, required_format, resolve_path, transcribe, mock_transcribe,
}
use bibi_core.Stt.Contract.{SttEngine, IsSttEngine}

-- `WhisperCppEngine`
unfoldable pub whisper_engine :
    {E F : Type 0} → (E → List ℤ → Try (List (NativeSegment F))) → SttEngine E F
unfolding whisper_available is_file resolve_path transcribe
whisper_engine model = record {
  list_available = whisper_available;
  resolve_path = λ entries name. resolve_path (is_file entries) name;
  required_format = some required_format;
  transcribe = λ e chunks. transcribe (model e) chunks;
}

-- `MockSTTEngine`
unfoldable pub mock_engine : {E F : Type 0} → (Duration → ℕ) → (Duration → Text) → F → SttEngine E F
unfolding mock_transcribe
mock_engine milliseconds shown one = record {
  list_available = λ entries. codes "mock" ∷ [];
  resolve_path = λ entries name. ok name;
  required_format = none;
  transcribe = λ e chunks. mock_transcribe milliseconds shown one chunks;
}

module _ {E F : Type 0} where
  -- The class of whisper.cpp keeps the contract.
  pub whisper_engine-IsSttEngine :
      (model : E → List ℤ → Try (List (NativeSegment F))) → IsSttEngine (whisper_engine model)
  unfolding whisper_engine
  whisper_engine-IsSttEngine model = record {
    loads = λ entries name files usable listed.
        (name ++ codes ".bin", (whisper_available_iff entries name files usable).0 listed);
  }

  -- So does the mock.
  pub mock_engine-IsSttEngine :
      (milliseconds : Duration → ℕ) (shown : Duration → Text) (one : F)
      → IsSttEngine {E = E} (mock_engine milliseconds shown one)
  unfolding mock_engine
  mock_engine-IsSttEngine milliseconds shown one = record {
    loads = λ entries name files usable listed. (name, refl);
  }
