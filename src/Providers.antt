-- ===== src/Providers.antt =====
-- The registries of stt/engines/factory.py, llm/engines/factory.py and tts/engines/factory.py: an
-- engine class by the name of its provider. A ValueError is its message.
use bibi_core.Base.{
  none, some, List, [], ◌∷◌, ◌++◌, Text, Text-discrete, codes, lookup, keys, Result, ok, raise,
}
use bibi_core.Catalogue.{sorted}

pub data SttProvider : Type 0 where
  whispercpp mock : SttProvider

pub data LlmProvider : Type 0 where
  ollama mock : LlmProvider

pub data TtsProvider : Type 0 where
  piper mock : TtsProvider

-- `_PROVIDERS`
abbrev pub stt_providers : List (Text × SttProvider)
stt_providers = (codes "whispercpp", SttProvider.whispercpp) ∷ (codes "mock", SttProvider.mock) ∷ []

abbrev pub llm_providers : List (Text × LlmProvider)
llm_providers = (codes "ollama", LlmProvider.ollama) ∷ (codes "mock", LlmProvider.mock) ∷ []

abbrev pub tts_providers : List (Text × TtsProvider)
tts_providers = (codes "piper", TtsProvider.piper) ∷ (codes "mock", TtsProvider.mock) ∷ []

-- `str` of a list of names without quotes
unfoldable pub quoted : List Text → Text
quoted [] = []
quoted (w ∷ []) = codes "'" ++ (w ++ codes "'")
quoted (w ∷ v ∷ ws) = codes "'" ++ (w ++ (codes "', " ++ quoted (v ∷ ws)))

unfoldable pub unknown_provider : Text → Text → List Text → Text
unfolding quoted sorted
unknown_provider service provider names =
    codes "Unknown "
    ++ (service
        ++ (codes " provider '"
            ++ (provider ++ (codes "'. Available: [" ++ (quoted (sorted names) ++ codes "]")))))

unfoldable pub provider_class : {P : Type 0} → Text → List (Text × P) → Text → Result Text P
unfolding lookup unknown_provider
provider_class service registry provider = elim (lookup Text-discrete provider registry) [
  | none ↦ raise (unknown_provider service provider (keys registry))
  | some p ↦ ok p
]

unfoldable pub stt_provider_class : Text → Result Text SttProvider
unfolding provider_class
stt_provider_class = provider_class (codes "STT") stt_providers

unfoldable pub llm_provider_class : Text → Result Text LlmProvider
unfolding provider_class
llm_provider_class = provider_class (codes "LLM") llm_providers

unfoldable pub tts_provider_class : Text → Result Text TtsProvider
unfolding provider_class
tts_provider_class = provider_class (codes "TTS") tts_providers
