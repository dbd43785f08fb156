-- ===== src/Tts/Contract/Tests.antt =====
-- The path of the mock's voice.
use bibi_core.Base.{◌≡◌, refl, [], codes, ok, ℕ}
use bibi_core.Files.{to_path}
use bibi_core.Tts.Contract.{mock_engine}

mock_resolves :
    (mock_engine {E = ℕ}).resolve_path (to_path (codes "voices")) [] (codes "mock")
    ≡ ok (codes "mock")
unfolding mock_engine
mock_resolves = refl
