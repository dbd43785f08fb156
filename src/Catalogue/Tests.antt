-- ===== src/Catalogue/Tests.antt =====
-- A directory with two models and a file of notes.
use bibi_core.Base.{◌≡◌, refl, inl, inr, true, List, [], ◌∷◌, text_eq, codes}
use bibi_core.Catalogue.{
  Entry, drop_suffix, text_leb, insert_sorted, sorted, bin_stems, whisper_available, all_points,
  stem_of,
}
use bibi_core.Catalogue.Laws.{IsMember}

abbrev models : List Entry
models =
    record { name = codes "small.bin"; file = true }
    ∷ record { name = codes "notes.txt"; file = true }
    ∷ record { name = codes "base.bin"; file = true }
    ∷ []

listed : whisper_available models ≡ codes "base" ∷ codes "small" ∷ []
unfolding whisper_available sorted insert_sorted text_leb bin_stems drop_suffix text_eq
listed = refl

small_listed : IsMember (codes "small") (whisper_available models)
small_listed = rw listed (inr (inl refl))

-- A name that has points only before the suffix is its own stem.
points_listed : bin_stems (record { name = codes "...bin"; file = true } ∷ []) ≡ codes "...bin" ∷ []
unfolding bin_stems drop_suffix text_eq stem_of all_points
points_listed = refl
