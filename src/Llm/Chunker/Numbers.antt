-- ===== src/Llm/Chunker/Numbers.antt =====
-- The decimal-point test of the chunker.
use bibi_core.Base.{
  ℕ, ◌≤◌, ◌≡◌, refl, true, false, some, [], ◌∷◌, arith, Text, last_or, length, mem_char, le→leb,
}
use bibi_core.Llm.Chunker.{
  Unicode, Chunking, rfind, is_mid_number, ends_with_abbreviation, hit_boundary, should_flush,
}

rfind-last : (c : ℕ) (s : Text) (d : ℕ) → last_or c s ≡ d → rfind d (c ∷ s) ≡ some (length s)
unfolding rfind last_or
rfind-last c [] d h = ground arith
rfind-last c (e ∷ s) d h = rw (rfind-last e s d h)

module _ (unicode : Unicode) where
  mid_number_last : (s : Text) → is_mid_number unicode s (last_or 0 s) ≡ false
  unfolding is_mid_number last_or
  mid_number_last [] = refl
  mid_number_last (c ∷ s) = ground (arith, rfind-last c s b'.')

  -- A buffer that ends in a point, where the point is a boundary, is long enough and ends in no
  -- abbreviation is flushed whatever the next token is, since the test for a decimal point does
  -- not fire there.
  pub decimal_point_cut :
      (config : Chunking) (s : Text)
      → last_or 0 s ≡ b'.'
      → mem_char b'.' config.boundary_chars ≡ true
      → ends_with_abbreviation unicode s ≡ false
      → config.min_chunk_chars ≤ length s
      → (is_mid_number unicode s (last_or 0 s) ≡ false) × (should_flush unicode config s ≡ true)
  unfolding should_flush hit_boundary
  decimal_point_cut config s point boundary plain long =
      let never = mid_number_last s in
      let marked : mem_char (last_or 0 s) config.boundary_chars ≡ true = rw point boundary in
      (never, ground (arith, never, marked, plain, le→leb _ _ long))
