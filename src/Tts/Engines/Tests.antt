-- ===== src/Tts/Engines/Tests.antt =====
-- The mock and a provider that is not registered.
use bibi_core.Base.{◌≡◌, refl, [], ◌∷◌, Text-discrete, codes, ok, lookup, ℕ}
use bibi_core.Manager.{Manager}
use bibi_core.Providers.{TtsProvider, provider_class, tts_provider_class}
use bibi_core.Tts.Engines.{list_voices, new_manager}

abbrev no_voices : Manager ℕ
no_voices = record {
  default = codes "amy";
  cache = record { engines = []; refs = []; max_loaded = 3 };
}

mock_made : new_manager (codes "mock") (codes "amy") 3 ≡ ok (TtsProvider.mock, no_voices)
unfolding new_manager tts_provider_class provider_class lookup Text-discrete
mock_made = refl

mock_listed : list_voices TtsProvider.mock [] ≡ codes "mock" ∷ []
unfolding list_voices
mock_listed = refl
