-- ===== src/Tts/Listing/Tests.antt =====
-- The answer of the mock.
use bibi_core.Base.{◌≡◌, refl, [], ◌∷◌, codes}
use bibi_core.Providers.{TtsProvider}
use bibi_core.Tts.Listing.{list_voices}

mock_voices :
    list_voices TtsProvider.mock []
    ≡ record { payload = codes "mock" ∷ []; status = 200; message = codes "1 available voices" }
unfolding list_voices
mock_voices = refl
