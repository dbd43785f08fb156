-- ===== src/Stt/Startup/Tests.antt =====
-- The process with one model in its directory.
use bibi_core.Base.{◌≡◌, ◌↔◌, ◌⊎◌, refl, true, ok, List, [], ◌∷◌, Text, codes, ℕ}
use bibi_core.Paths.{is_plain}
use bibi_core.Catalogue.{Entry, whisper_available}
use bibi_core.Catalogue.Laws.{letter_first-IsUsable, IsMember}
use bibi_core.Manager.{Manager}
use bibi_core.Providers.{SttProvider}
use bibi_core.Stt.Models.{Try}
use bibi_core.Stt.Startup.{start_up}
use bibi_core.Stt.Startup.Laws.{start_up_iff}

abbrev make : SttProvider → Text → Try ℕ
make cls path = ok 4

abbrev directory : List Entry
directory = record { name = codes "small.bin"; file = true } ∷ []

start_up_iff_example :
    ((started : SttProvider × Manager ℕ) × (start_up make directory
          (codes "whispercpp")
          (codes "small")
          4
        ≡ ok started))
    ↔ ((is_plain (codes "small") ≡ true)
        × (((codes "whispercpp" ≡ codes "whispercpp")
              × IsMember (codes "small") (whisper_available directory))
            ⊎ (codes "whispercpp" ≡ codes "mock")))
start_up_iff_example =
    start_up_iff make directory (codes "whispercpp") (codes "small") 4 (refl, tt)
      (letter_first-IsUsable 115 (codes "mall") refl) (λ cls p. (4, refl))
