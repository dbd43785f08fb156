-- ===== src/Tts/Markdown/Takes.antt =====
-- What each pattern takes off a text, and what it puts there.
use bibi_core.Base.{
  ℕ, ◌≡◌, refl, ap, subst, ◌∙◌, ◌&&◌, Bool, true, Option, some, [], ◌∷◌, ◌++◌, ◌==◌, arith, Text,
  codes, append_assoc, append-nil, Option-cases, Bool-cases, inl, inr,
}
use bibi_core.Tts.Markdown.{
  Pattern, is_blank, blanks, drop_prefix, until, nonempty, behind_target, fenced, or_else,
  behind_hashes, marker, image, link, header, list_marker, bold_italic, bold, italic, strikethrough,
  inline_code, is_symbol, leftover_symbol, repeated_spaces,
}
use bibi_core.Tts.Markdown.Within.{Within, keep, Within-refl, Within-nil, Within-append}
use bibi_core.Tts.Markdown.Scans.{
  blanks-Cuts, drop_prefix_lem, until_lem, nonempty_lem, behind_target_lem, fenced_lem,
  behind_hashes-Cuts, marker-Cuts,
}

-- A replacement, and what it replaces.
abbrev pub Takes : Text → Text → Text → Type 0
Takes r s rest = (c : ℕ) × (pre : Text) × (s ≡ c ∷ pre ++ rest) × Within r (c ∷ pre)

-- What a pattern puts is left of what it takes, which is not empty.
abbrev pub IsSound : Pattern → Type 0
IsSound p = (start : Bool) (s r rest : Text) → p start s ≡ some (r, rest) → Takes r s rest

inner : (f b g : Text) → Within b (f ++ (b ++ g))
inner f b g =
    Within-append (Within-nil f)
      (subst (λ t. Within t (b ++ g)) (append-nil b) (Within-append (Within-refl b) (Within-nil g)))

-- Erased text.
erased : (s rest : Text) (c : ℕ) (pre : Text) → s ≡ c ∷ pre ++ rest → Takes [] s rest
erased s rest c pre same = (c, pre, same, Within-nil (c ∷ pre))

behind_target-Takes :
    (c : ℕ) (pre s t body rest : Text) (o : Option (Text × Text))
    → s ≡ (c ∷ pre) ++ t
    → ((b mid : Text) → o ≡ some (b, mid) → t ≡ b ++ b']' ∷ mid)
    → behind_target o ≡ some (body, rest)
    → Takes body s rest
behind_target-Takes c pre s t body rest o at split h =
    let (mid, target, found, same) = behind_target_lem o body rest h in
    let behind : Text = b']' ∷ b'(' ∷ target ++ b')' ∷ [] in
    (
      c,
      pre ++ (body ++ behind),
      at
          ∙ ap (λ u. (c ∷ pre) ++ u) (split body mid found ∙ ap (λ u. body ++ b']' ∷ u) same)
          ∙ (simp append_assoc),
      inner (c ∷ pre) body behind,
    )

pub image-IsSound : IsSound image
unfolding image
image-IsSound start s r rest h = elim (Option-cases (drop_prefix (codes "![") s)) [
  | inl no_prefix ↦ absurd (ground arith)
  | inr (t, found) ↦
      behind_target-Takes b'!' (codes "[") s t r rest (until b']' t)
        (drop_prefix_lem (codes "![") s t found) (λ b mid e. until_lem b']' t b mid e)
        (rw found at h)
]

pub link-IsSound : IsSound link
unfolding link
link-IsSound start s r rest h = elim (Option-cases (drop_prefix (codes "[") s)) [
  | inl no_prefix ↦ absurd (ground arith)
  | inr (t, found) ↦
      behind_target-Takes b'[' [] s t r rest (nonempty (until b']' t))
        (drop_prefix_lem (codes "[") s t found)
        (λ b mid e. until_lem b']' t b mid (nonempty_lem _ b mid e)) (rw found at h)
]

pub header-IsSound : IsSound header
unfolding header
header-IsSound start [] r rest h = cc
header-IsSound start (c ∷ s) r rest h = elim (Bool-cases (start && c == b'#')) [
  | inr other ↦ absurd (ground arith)
  | inl hash ↦ elim (Option-cases (behind_hashes 5 s)) [
    | inl none_behind ↦ absurd (ground arith)
    | inr (t, found) ↦
        let (pre, same) = behind_hashes-Cuts 5 s t found in
        let (nothing, here) : (r ≡ []) × (rest ≡ t) = (ground arith, ground arith) in
        rw (nothing, here) (erased (c ∷ s) t c pre (ap (λ u. c ∷ u) same))
  ]
]

pub list_marker-IsSound : IsSound list_marker
unfolding list_marker
list_marker-IsSound start s r rest h = elim (Option-cases (marker (blanks s))) [
  | inl none_behind ↦ absurd (ground arith)
  | inr (t, found) ↦
      let (before, split) = blanks-Cuts s in
      let (c, pre, same) = marker-Cuts (blanks s) t found in
      let (nothing, here) : (r ≡ []) × (rest ≡ t) = (ground arith, ground arith) in
      rw (nothing, here) (joined before c pre t (split ∙ ap (λ u. before ++ u) same))
]
  where
    joined : (before : Text) (c : ℕ) (pre t : Text) → s ≡ before ++ (c ∷ pre ++ t) → Takes [] s t
    joined [] c pre t same = erased s t c pre same
    joined (b ∷ before) c pre t same = erased s t b (before ++ c ∷ pre) (same ∙ (simp append_assoc))

fenced-Takes : (d : ℕ) (f s r rest : Text) → fenced (d ∷ f) s ≡ some (r, rest) → Takes r s rest
fenced-Takes d f s r rest h = (
  d,
  f ++ (r ++ d ∷ f),
  fenced_lem (d ∷ f) s r rest h ∙ (simp append_assoc),
  inner (d ∷ f) r (d ∷ f),
)

either-Takes :
    (d e : ℕ) (f g s r rest : Text)
    → or_else (fenced (d ∷ f) s) (fenced (e ∷ g) s) ≡ some (r, rest)
    → Takes r s rest
either-Takes d e f g s r rest h = elim (Option-cases (fenced (d ∷ f) s)) [
  | inl other ↦ fenced-Takes e g s r rest (rw other at h)
  | inr (found, same) ↦ fenced-Takes d f s r rest (same ∙ (rw same at h))
]

pub bold_italic-IsSound : IsSound bold_italic
unfolding bold_italic
bold_italic-IsSound start s r rest h = either-Takes b'*' b'_' (codes "**") (codes "__") s r rest h

pub bold-IsSound : IsSound bold
unfolding bold
bold-IsSound start s r rest h = either-Takes b'*' b'_' (codes "*") (codes "_") s r rest h

pub italic-IsSound : IsSound italic
unfolding italic
italic-IsSound start s r rest h = either-Takes b'*' b'_' [] [] s r rest h

pub strikethrough-IsSound : IsSound strikethrough
unfolding strikethrough
strikethrough-IsSound start s r rest h = fenced-Takes b'~' (codes "~") s r rest h

pub inline_code-IsSound : IsSound inline_code
unfolding inline_code
inline_code-IsSound start s r rest h = elim (Option-cases (drop_prefix (codes "`") s)) [
  | inl no_prefix ↦ absurd (ground arith)
  | inr (t, found) ↦
      let body = until_lem b'`' t r rest (nonempty_lem _ r rest (rw found at h)) in
      (
        b'`',
        r ++ codes "`",
        drop_prefix_lem (codes "`") s t found ∙ ap (λ u. b'`' ∷ u) (body ∙ (simp append_assoc)),
        inner (codes "`") r (codes "`"),
      )
]

pub leftover_symbol-IsSound : IsSound leftover_symbol
unfolding leftover_symbol
leftover_symbol-IsSound start [] r rest h = cc
leftover_symbol-IsSound start (c ∷ s) r rest h = elim (Bool-cases (is_symbol c)) [
  | inr other ↦ absurd (ground arith)
  | inl symbol ↦
      let (nothing, here) : (r ≡ []) × (rest ≡ s) = (ground arith, ground arith) in
      rw (nothing, here) (erased (c ∷ s) s c [] refl)
]

pub repeated_spaces-IsSound : IsSound repeated_spaces
unfolding repeated_spaces
repeated_spaces-IsSound start [] r rest h = cc
repeated_spaces-IsSound start (c ∷ []) r rest h = cc
repeated_spaces-IsSound start (c ∷ d ∷ s) r rest h = elim (Bool-cases (is_blank c && is_blank d)) [
  | inr other ↦ absurd (ground arith)
  | inl both ↦
      let (pre, same) = blanks-Cuts s in
      let (space, here) : (r ≡ b' ' ∷ []) × (rest ≡ blanks s) = (ground arith, ground arith) in
      let first : is_blank c ≡ true = ground arith in
      rw (space, here)
        (
          c,
          d ∷ pre,
          ap (λ u. c ∷ d ∷ u) same,
          keep b' ' c (inr (refl, first)) (Within-nil (d ∷ pre)),
        )
]
