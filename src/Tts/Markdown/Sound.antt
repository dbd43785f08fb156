-- ===== src/Tts/Markdown/Sound.antt =====
-- A text and what the passes leave of it.
use bibi_core.Base.{
  ℕ, zero, suc, ◌-◌, ◌≡◌, refl, ap, subst, Bool, true, List, [], ◌∷◌, ◌++◌, ◌==◌, arith, Text,
  length, length-append, Option-cases, inl, inr, All,
}
use bibi_core.Tts.Markdown.{
  Pattern, sub_from, sub, leftover_symbol, repeated_spaces, markup, sub_all, strip_markdown,
}
use bibi_core.Tts.Markdown.Within.{Within, nil, keep, Within-refl, Within-append, Within-trans}
use bibi_core.Tts.Markdown.Takes.{
  IsSound, image-IsSound, link-IsSound, header-IsSound, list_marker-IsSound, bold_italic-IsSound,
  bold-IsSound, italic-IsSound, strikethrough-IsSound, inline_code-IsSound, leftover_symbol-IsSound,
  repeated_spaces-IsSound,
}

unfoldable drop : ℕ → Text → Text
drop zero s = s
drop (suc n) [] = []
drop (suc n) (c ∷ s) = drop n s

drop-nil : (n : ℕ) → drop n [] ≡ []
unfolding drop
drop-nil zero = refl
drop-nil (suc n) = refl

drop-append : (pre rest : Text) → drop (length pre) (pre ++ rest) ≡ rest
unfolding drop
drop-append [] rest = refl
drop-append (c ∷ pre) rest = drop-append pre rest

rejoin : (pre rest s : Text) → s ≡ pre ++ rest → pre ++ drop (length s - length rest) s ≡ s
rejoin pre rest s same =
    let taken : length s - length rest ≡ length pre =
      omega (arith, ap length same, length-append pre rest) in
    rw (taken, same) (ap (λ t. pre ++ t) (drop-append pre rest))

sub_from-Within :
    (p : Pattern)
    → IsSound p
    → (start : Bool) (n : ℕ) (s : Text) → Within (sub_from p start n s) (drop n s)
unfolding sub_from drop
sub_from-Within p sound start n [] = rw drop-nil nil
sub_from-Within p sound start (suc n) (c ∷ s) = sub_from-Within p sound (c == b'\n') n s
sub_from-Within p sound start zero (c ∷ s) = elim (Option-cases (p start (c ∷ s))) [
  | inl no_match ↦
      rw (no_match, sub_from) (keep c c (inl refl) (sub_from-Within p sound (c == b'\n') zero s))
  | inr ((r, rest), found) ↦
      let (d, pre, same, left) = sound start (c ∷ s) r rest found in
      let later = sub_from-Within p sound (c == b'\n') (length s - length rest) s in
      let whole : (d ∷ pre) ++ drop (length s - length rest) s ≡ c ∷ s =
        ground (arith, rejoin pre rest s, same) in
      rw (found, sub_from) (subst (Within _) whole (Within-append left later))
]

pub sub-Within : (p : Pattern) (s : Text) → IsSound p → Within (sub p s) s
unfolding sub drop
sub-Within p s sound = sub_from-Within p sound true zero s

sub_all-Within : (ps : List Pattern) (s : Text) → All IsSound ps → Within (sub_all ps s) s
unfolding sub_all
sub_all-Within [] s sound = Within-refl s
sub_all-Within (p ∷ ps) s (sound, rest) =
    Within-trans (sub_all-Within ps (sub p s) rest) (sub-Within p s sound)

markup-IsSound : All IsSound markup
markup-IsSound = (
  image-IsSound,
  (
    link-IsSound,
    (
      header-IsSound,
      (
        list_marker-IsSound,
        (
          bold_italic-IsSound,
          (bold-IsSound, (italic-IsSound, (strikethrough-IsSound, (inline_code-IsSound, tt)))),
        ),
      ),
    ),
  ),
)

-- Whatever the text is, strip_markdown only takes characters out and puts spaces in place of
-- blanks: what it leaves are characters of the text, in their order.
pub strip_markdown-Within : (s : Text) → Within (strip_markdown s) s
unfolding strip_markdown
strip_markdown-Within [] = nil
strip_markdown-Within (c ∷ s) =
    Within-trans (sub-Within repeated_spaces _ repeated_spaces-IsSound) (
      Within-trans (sub-Within leftover_symbol _ leftover_symbol-IsSound)
        (sub_all-Within markup (c ∷ s) markup-IsSound))
