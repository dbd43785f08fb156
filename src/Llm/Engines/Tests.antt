-- ===== src/Llm/Engines/Tests.antt =====
-- The engine of the configuration, when Ollama does not list the model.
use bibi_core.Base.{◌≡◌, refl, none, ok, raise, [], Text-discrete, codes, lookup}
use bibi_core.Llm.Models.{model_not_found}
use bibi_core.Llm.Ollama.{
  OllamaEngine, listed, ensure_model_available, check_listing, is_fresh, matches,
}
use bibi_core.Llm.Engines.{mock_engine, ollama_engine, engine_of, new_engine}
use bibi_core.Providers.{provider_class, llm_provider_class}

abbrev new_ollama : OllamaEngine
new_ollama = record { model = codes "llama3"; ttl = 10; last_checked_at = none }

mock_made :
    new_engine new_ollama 5 (listed []) (listed []) (λ ms. ([], none)) (codes "mock")
    ≡ ok mock_engine
unfolding new_engine engine_of llm_provider_class provider_class lookup Text-discrete
mock_made = refl

ollama_not_ready :
    (ollama_engine new_ollama 5 (listed []) (listed []) (λ ms. ([], none))).ready
    ≡ raise (model_not_found (codes "llama3"))
unfolding ollama_engine ensure_model_available check_listing is_fresh matches
ollama_not_ready = refl
