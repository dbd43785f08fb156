-- ===== src/Tts/Markdown/Clean.antt =====
-- The last two passes.
use bibi_core.Base.{
  ℕ, zero, suc, ◌+◌, ◌-◌, ◌≤◌, ◌≡◌, refl, ◌&&◌, Bool, true, false, [], ◌∷◌, ◌==◌, if◌then◌else◌,
  arith, Text, codes, length, Bool-cases, inl, inr, All, mem_char,
}
use bibi_core.Tts.Markdown.{
  sub_from, sub, is_blank, blanks, is_symbol, leftover_symbol, repeated_spaces, markup, sub_all,
  strip_markdown,
}
use bibi_core.Tts.Markdown.Within.{Within, nil, skip, keep}
use bibi_core.Tts.Markdown.Scans.{sub_from-none, sub_from-some}
use bibi_core.Tts.Markdown.Takes.{repeated_spaces-IsSound}
use bibi_core.Tts.Markdown.Sound.{sub-Within}

-- No symbol is left.
abbrev pub HasNoSymbol : Text → Type 0
HasNoSymbol = All (λ c. mem_char c (codes "*_`~#") ≡ false)

-- No two blanks stand together.
abbrev pub HasSingleBlanks : Text → Type 0
HasSingleBlanks [] = Unit
HasSingleBlanks (c ∷ []) = Unit
HasSingleBlanks (c ∷ d ∷ s) = ((is_blank c && is_blank d) ≡ false) × HasSingleBlanks (d ∷ s)

symbols_out : (start : Bool) (s : Text) → HasNoSymbol (sub_from leftover_symbol start zero s)
unfolding sub_from leftover_symbol
symbols_out start [] = tt
symbols_out start (c ∷ s) = elim (Bool-cases (is_symbol c)) [
  | inr other ↦
      rw (sub_from-none leftover_symbol start c s (rw other)) (other, symbols_out (c == b'\n') s)
  | inl symbol ↦
      let here : length s - length s ≡ 0 = omega arith in
      rw (sub_from-some leftover_symbol start c s [] s (rw symbol), here)
        (symbols_out (c == b'\n') s)
]

space_no_symbol : mem_char b' ' (codes "*_`~#") ≡ false
unfolding mem_char
space_no_symbol = refl

Within-HasNoSymbol : {r s : Text} → Within r s → HasNoSymbol s → HasNoSymbol r
Within-HasNoSymbol nil h = tt
Within-HasNoSymbol (skip c w) h = Within-HasNoSymbol w h.1
Within-HasNoSymbol (keep d c (inl e) w) h = (rw e h.0, Within-HasNoSymbol w h.1)
Within-HasNoSymbol (keep d c (inr (e, _)) w) h = (rw e space_no_symbol, Within-HasNoSymbol w h.1)

-- How many blanks stand in front.
unfoldable lead : Text → ℕ
lead [] = 0
lead (c ∷ s) = if is_blank c then suc (lead s) else 0

lead-blanks : (s : Text) → lead s + length (blanks s) ≡ length s
unfolding lead blanks
lead-blanks [] = refl
lead-blanks (c ∷ s) = ground (arith, lead-blanks s)

-- The text does not start with a blank.
abbrev StartsFull : Text → Type 0
StartsFull [] = Unit
StartsFull (c ∷ s) = is_blank c ≡ false

single_cons : (c : ℕ) (s : Text) → HasSingleBlanks s → StartsFull s → HasSingleBlanks (c ∷ s)
single_cons c [] h full = tt
single_cons c (d ∷ s) h full = (ground (arith, full), h)

full_cons : (c : ℕ) (s : Text) → HasSingleBlanks s → is_blank c ≡ false → HasSingleBlanks (c ∷ s)
full_cons c [] h full = tt
full_cons c (d ∷ s) h full = (rw full, h)

-- The pass, where it has yet to take no more blanks than stand in front.
collapsed :
    (start : Bool) (n : ℕ) (s : Text)
    → n ≤ lead s
    → HasSingleBlanks (sub_from repeated_spaces start n s)
      × (n ≡ lead s → StartsFull (sub_from repeated_spaces start n s))
unfolding sub_from repeated_spaces lead
collapsed start n [] le = (tt, λ _. tt)
collapsed start (suc n) (c ∷ s) le =
    let blank : is_blank c ≡ true = ground arith in
    let (single, full) = collapsed (c == b'\n') n s (ground (arith, blank)) in
    (single, λ all. full (ground (arith, blank)))
collapsed start zero (c ∷ []) le = (tt, λ all. ground arith)
collapsed start zero (c ∷ d ∷ s) le = elim (Bool-cases (is_blank c)) [
  | inr other ↦
      let (single, full) = collapsed (c == b'\n') zero (d ∷ s) (omega arith) in
      rw (sub_from-none repeated_spaces start c (d ∷ s) (rw other))
        (full_cons c _ single other, λ _. other)
  | inl blank ↦ elim (Bool-cases (is_blank d)) [
    | inr alone ↦
        let (single, full) = collapsed (c == b'\n') zero (d ∷ s) (omega arith) in
        rw (sub_from-none repeated_spaces start c (d ∷ s) (rw (blank, alone)))
          (single_cons c _ single (full (rw alone)), λ all. absurd (ground arith))
    | inl both ↦
        let all_of : suc (length s) - length (blanks s) ≡ suc (lead s) =
          omega (arith, lead-blanks s) in
        let (single, full) =
          collapsed (c == b'\n') (suc (lead s)) (d ∷ s) (rw both (omega arith)) in
        rw
          (
            sub_from-some repeated_spaces start c (d ∷ s) (b' ' ∷ []) (blanks s) (rw (blank, both)),
            all_of,
          )
          (single_cons b' ' _ single (full (rw both)), λ all. absurd (ground arith))
  ]
]

strip_markdown-HasNoSymbol : (s : Text) → HasNoSymbol (strip_markdown s)
unfolding strip_markdown sub
strip_markdown-HasNoSymbol [] = tt
strip_markdown-HasNoSymbol (c ∷ s) =
    Within-HasNoSymbol (sub-Within repeated_spaces _ repeated_spaces-IsSound)
      (symbols_out true (sub_all markup (c ∷ s)))

strip_markdown-HasSingleBlanks : (s : Text) → HasSingleBlanks (strip_markdown s)
unfolding strip_markdown sub
strip_markdown-HasSingleBlanks [] = tt
strip_markdown-HasSingleBlanks (c ∷ s) = (collapsed true zero _ (omega arith)).0

-- Whatever the text is, what strip_markdown leaves for the voice has none of the characters * _
-- ` ~ #, and no two blanks in a row.
pub strip_markdown_clean :
    (s : Text) → HasNoSymbol (strip_markdown s) × HasSingleBlanks (strip_markdown s)
strip_markdown_clean s = (strip_markdown-HasNoSymbol s, strip_markdown-HasSingleBlanks s)
