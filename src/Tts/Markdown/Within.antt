-- ===== src/Tts/Markdown/Within.antt =====
-- A text that is left of another when characters are taken out and blanks become spaces.
use bibi_core.Base.{ℕ, ◌≤◌, ◌≡◌, refl, ◌⊎◌, inl, inr, true, [], ◌∷◌, ◌++◌, arith, Text, length}
use bibi_core.Tts.Markdown.{is_blank}

-- A character stays, or is a blank that becomes a space.
abbrev pub Fits : ℕ → ℕ → Type 0
Fits d c = (d ≡ c) ⊎ ((d ≡ b' ') × (is_blank c ≡ true))

pub data Within : Text → Text → Type 0 where
  nil : Within [] []
  skip : (c : ℕ) {r s : Text} → Within r s → Within r (c ∷ s)
  keep : (d c : ℕ) {r s : Text} → Fits d c → Within r s → Within (d ∷ r) (c ∷ s)

pub Within-refl : (s : Text) → Within s s
Within-refl [] = nil
Within-refl (c ∷ s) = keep c c (inl refl) (Within-refl s)

pub Within-nil : (s : Text) → Within [] s
Within-nil [] = nil
Within-nil (c ∷ s) = skip c (Within-nil s)

pub Within-append : {q r s t : Text} → Within q r → Within s t → Within (q ++ s) (r ++ t)
Within-append nil w = w
Within-append (skip c v) w = skip c (Within-append v w)
Within-append (keep d c f v) w = keep d c f (Within-append v w)

Fits-trans : (a b c : ℕ) → Fits a b → Fits b c → Fits a c
Fits-trans a b c (inl e) (inl f) = inl (cc)
Fits-trans a b c (inl e) (inr (f, g)) = inr (cc, g)
Fits-trans a b c (inr (e, g)) (inl f) = inr (e, (rw f at g))
Fits-trans a b c (inr (e, g)) (inr (f, h)) = inr (e, h)

pub Within-trans : {r s t : Text} → Within r s → Within s t → Within r t
Within-trans v (skip c w) = skip c (Within-trans v w)
Within-trans nil nil = nil
Within-trans (skip c v) (keep d b f w) = skip b (Within-trans v w)
Within-trans (keep a c e v) (keep d b f w) = keep a b (Fits-trans a c b e f) (Within-trans v w)

pub Within-length : {r s : Text} → Within r s → length r ≤ length s
Within-length nil = omega arith
Within-length (skip c w) = omega (arith, Within-length w)
Within-length (keep d c f w) = omega (arith, Within-length w)
