-- ===== src/Llm/Chunker/Strip.antt =====
-- `str.strip` and the visible characters of a text.
use bibi_core.Base.{
  ℕ, ◌≡◌, refl, ap, ◌∙◌, false, [], ◌∷◌, ◌++◌, if◌then◌else◌, arith, Text, is_space, lstrip,
  push_strip, rstrip, strip, Bool-cases, inl, inr,
}

-- The characters that are not white space.
unfoldable pub squeeze : Text → Text
squeeze [] = []
squeeze (c ∷ s) = if is_space c then squeeze s else c ∷ squeeze s

pub squeeze-append : (s t : Text) → squeeze (s ++ t) ≡ squeeze s ++ squeeze t
unfolding squeeze
squeeze-append [] t = refl
squeeze-append (c ∷ s) t = ground (arith, squeeze-append s t)

squeeze-lstrip : (s : Text) → squeeze (lstrip s) ≡ squeeze s
unfolding squeeze lstrip
squeeze-lstrip [] = refl
squeeze-lstrip (c ∷ s) = ground (arith, squeeze-lstrip s)

squeeze-push_strip : (c : ℕ) (r : Text) → squeeze (push_strip c r) ≡ squeeze (c ∷ r)
unfolding squeeze push_strip
squeeze-push_strip c [] = ground arith
squeeze-push_strip c (d ∷ r) = refl

squeeze-rstrip : (s : Text) → squeeze (rstrip s) ≡ squeeze s
unfolding rstrip squeeze
squeeze-rstrip [] = refl
squeeze-rstrip (c ∷ s) = squeeze-push_strip c (rstrip s) ∙ (ground (arith, squeeze-rstrip s))

pub squeeze-strip : (s : Text) → squeeze (strip s) ≡ squeeze s
unfolding strip
squeeze-strip s = squeeze-rstrip (lstrip s) ∙ squeeze-lstrip s

rstrip-push_strip : (c : ℕ) (r : Text) → rstrip r ≡ r → rstrip (push_strip c r) ≡ push_strip c r
unfolding rstrip push_strip
rstrip-push_strip c [] h = ground arith
rstrip-push_strip c (d ∷ r) h = rw h

rstrip_idem : (s : Text) → rstrip (rstrip s) ≡ rstrip s
unfolding rstrip
rstrip_idem [] = refl
rstrip_idem (c ∷ s) = rstrip-push_strip c (rstrip s) (rstrip_idem s)

-- Nothing, or a text whose first character is no space.
abbrev StartsSolid : Text → Type 0
StartsSolid [] = Unit
StartsSolid (c ∷ s) = is_space c ≡ false

lstrip-StartsSolid : (s : Text) → StartsSolid (lstrip s)
unfolding lstrip
lstrip-StartsSolid [] = tt
lstrip-StartsSolid (c ∷ s) = elim (Bool-cases (is_space c)) [
  | inl space ↦ rw space (lstrip-StartsSolid s)
  | inr solid ↦ rw solid solid
]

rstrip-StartsSolid : (s : Text) → StartsSolid s → StartsSolid (rstrip s)
unfolding rstrip
rstrip-StartsSolid [] h = tt
rstrip-StartsSolid (c ∷ s) h = push_strip-StartsSolid c (rstrip s) h
  where
    push_strip-StartsSolid : (c : ℕ) (r : Text) → is_space c ≡ false → StartsSolid (push_strip c r)
    push_strip-StartsSolid c [] h = unfold push_strip in rw h h
    push_strip-StartsSolid c (d ∷ r) h = unfold push_strip in h

lstrip_solid : (s : Text) → StartsSolid s → lstrip s ≡ s
unfolding lstrip
lstrip_solid [] h = refl
lstrip_solid (c ∷ s) h = rw h

pub strip_idem : (s : Text) → strip (strip s) ≡ strip s
unfolding strip
strip_idem s =
    ap rstrip
      (lstrip_solid (rstrip (lstrip s)) (rstrip-StartsSolid (lstrip s) (lstrip-StartsSolid s)))
    ∙ rstrip_idem (lstrip s)
