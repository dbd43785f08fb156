-- ===== src/Tts/Markdown/Plain.antt =====
-- Text without markup.
use bibi_core.Base.{
  ℕ, zero, ◌≡◌, refl, ap, ◌∙◌, ◌||◌, ◌&&◌, Bool, true, false, none, List, [], ◌∷◌, ◌==◌, arith,
  Text, codes, Bool-cases, inl, inr, All, mem_char,
}
use bibi_core.Tts.Markdown.{
  Pattern, sub_from, sub, is_blank, blanks, some_blanks, drop_prefix, fenced, or_else, marker,
  image, link, header, list_marker, bold_italic, bold, italic, strikethrough, inline_code,
  is_symbol, leftover_symbol, repeated_spaces, markup, sub_all, strip_markdown,
}
use bibi_core.Tts.Markdown.Scans.{sub_from-none}

unfoldable pub is_markup : ℕ → Bool
unfolding mem_char
is_markup c = mem_char c (codes "*_`~#[")

-- A blank behind a blank, or behind a sign that may mark the item of a list.
unfoldable pub is_loose : ℕ → Text → Bool
is_loose c [] = false
is_loose c (d ∷ s) = is_blank d && (is_blank c || (c == b'-' || c == b'+'))

abbrev pub IsPlain : Text → Type 0
IsPlain [] = Unit
IsPlain (c ∷ s) = (is_markup c ≡ false) × (is_loose c s ≡ false) × IsPlain s

abbrev pub IsIdle : Pattern → Type 0
IsIdle p = (start : Bool) (s : Text) → IsPlain s → p start s ≡ none

sub_from_idle :
    (p : Pattern) → IsIdle p → (start : Bool) (s : Text) → IsPlain s → sub_from p start zero s ≡ s
sub_from_idle p idle start [] h = unfold sub_from in refl
sub_from_idle p idle start (c ∷ s) h =
    sub_from-none p start c s (idle start (c ∷ s) h)
    ∙ ap (λ t. c ∷ t) (sub_from_idle p idle (c == b'\n') s h.2)

pub sub_idle : (p : Pattern) (s : Text) → IsIdle p → IsPlain s → sub p s ≡ s
unfolding sub
sub_idle p s idle h = sub_from_idle p idle true s h

-- A literal that holds markup does not begin a plain text.
no_prefix : (d : ℕ) (f s : Text) → is_markup d ≡ true → IsPlain s → drop_prefix (d ∷ f) s ≡ none
unfolding drop_prefix
no_prefix d f [] m h = refl
no_prefix d f (c ∷ s) m h = elim (Bool-cases (c == d)) [
  | inr other ↦ rw other
  | inl same ↦ let e : c ≡ d = ground arith in absurd (cc (m, h.0, ap is_markup e))
]

blanks-IsPlain : (s : Text) → IsPlain s → IsPlain (blanks s)
unfolding blanks
blanks-IsPlain [] h = tt
blanks-IsPlain (c ∷ s) h = elim (Bool-cases (is_blank c)) [
  | inl blank ↦ rw blank (blanks-IsPlain s h.2)
  | inr other ↦ rw other h
]

fenced_idle : (d : ℕ) (f s : Text) → is_markup d ≡ true → IsPlain s → fenced (d ∷ f) s ≡ none
unfolding fenced
fenced_idle d f s m h = rw (no_prefix d f s m h, fenced)

image-IsIdle : IsIdle image
unfolding image drop_prefix is_markup mem_char
image-IsIdle start [] h = refl
image-IsIdle start (c ∷ []) h = ground arith
image-IsIdle start (c ∷ d ∷ s) h = ground arith

pub link-IsIdle : IsIdle link
unfolding link is_markup mem_char
link-IsIdle start s h = rw (no_prefix b'[' [] s refl h, link)

pub header-IsIdle : IsIdle header
unfolding header is_markup mem_char
header-IsIdle start [] h = refl
header-IsIdle start (c ∷ s) h = ground arith

marker_idle : (s : Text) → IsPlain s → marker s ≡ none
unfolding marker some_blanks is_markup is_loose mem_char
marker_idle [] h = refl
marker_idle (c ∷ []) h = ground arith
marker_idle (c ∷ d ∷ s) h = ground arith

pub list_marker-IsIdle : IsIdle list_marker
unfolding list_marker
list_marker-IsIdle start s h = rw (marker_idle (blanks s) (blanks-IsPlain s h)) (ground arith)

either_idle :
    (d e : ℕ) (f g s : Text)
    → is_markup d ≡ true
    → is_markup e ≡ true
    → IsPlain s
    → or_else (fenced (d ∷ f) s) (fenced (e ∷ g) s) ≡ none
either_idle d e f g s m n h = rw (fenced_idle d f s m h, fenced_idle e g s n h)

pub bold_italic-IsIdle : IsIdle bold_italic
unfolding bold_italic is_markup mem_char
bold_italic-IsIdle start s h = either_idle b'*' b'_' (codes "**") (codes "__") s refl refl h

pub bold-IsIdle : IsIdle bold
unfolding bold is_markup mem_char
bold-IsIdle start s h = either_idle b'*' b'_' (codes "*") (codes "_") s refl refl h

pub italic-IsIdle : IsIdle italic
unfolding italic is_markup mem_char
italic-IsIdle start s h = either_idle b'*' b'_' [] [] s refl refl h

pub strikethrough-IsIdle : IsIdle strikethrough
unfolding strikethrough is_markup mem_char
strikethrough-IsIdle start s h = fenced_idle b'~' (codes "~") s refl h

pub inline_code-IsIdle : IsIdle inline_code
unfolding inline_code is_markup mem_char
inline_code-IsIdle start s h = rw (no_prefix b'`' [] s refl h, inline_code)

pub leftover_symbol-IsIdle : IsIdle leftover_symbol
unfolding leftover_symbol is_symbol is_markup mem_char
leftover_symbol-IsIdle start [] h = refl
leftover_symbol-IsIdle start (c ∷ s) h = ground arith

pub repeated_spaces-IsIdle : IsIdle repeated_spaces
unfolding repeated_spaces is_loose
repeated_spaces-IsIdle start [] h = refl
repeated_spaces-IsIdle start (c ∷ []) h = refl
repeated_spaces-IsIdle start (c ∷ d ∷ s) h = ground arith

pub sub_all_idle : (ps : List Pattern) (s : Text) → All IsIdle ps → IsPlain s → sub_all ps s ≡ s
unfolding sub_all
sub_all_idle [] s idle h = refl
sub_all_idle (p ∷ ps) s (idle, rest) h = rw (sub_idle p s idle h) (sub_all_idle ps s rest h)

pub markup-IsIdle : All IsIdle markup
markup-IsIdle = (
  image-IsIdle,
  (
    link-IsIdle,
    (
      header-IsIdle,
      (
        list_marker-IsIdle,
        (
          bold_italic-IsIdle,
          (bold-IsIdle, (italic-IsIdle, (strikethrough-IsIdle, (inline_code-IsIdle, tt)))),
        ),
      ),
    ),
  ),
)

-- A text without the characters * _ ` ~ # [ and without a blank behind a blank, a minus or a
-- plus comes out of strip_markdown as it is.
pub strip_markdown_plain : (s : Text) → IsPlain s → strip_markdown s ≡ s
unfolding strip_markdown
strip_markdown_plain [] h = refl
strip_markdown_plain (c ∷ s) h =
    rw
      (
        sub_all_idle markup (c ∷ s) markup-IsIdle h,
        sub_idle leftover_symbol (c ∷ s) leftover_symbol-IsIdle h,
      )
      (sub_idle repeated_spaces (c ∷ s) repeated_spaces-IsIdle h)
