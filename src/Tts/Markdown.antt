-- ===== src/Tts/Markdown.antt =====
-- `strip_markdown` of tts/utils/text.py. A regular expression is the function that it is at one
-- position of a text: what replaces the match, and the text behind it. `sub` is `re.sub`: the
-- matches from left to right, none of them empty. A quantifier that cannot take what its successor
-- wants, as `[^\]]*` before `\]`, needs no backtracking.
pub mod Within
pub mod Scans
pub mod Takes
pub mod Sound
pub mod Clean
pub mod Plain
pub mod Link
mod Tests
use bibi_core.Base.{
  ℕ, zero, suc, ◌-◌, Bool, true, false, not, ◌&&◌, ◌||◌, Option, none, some, List, [], ◌∷◌, ◌++◌,
  ◌==◌, if◌then◌else◌, Text, codes, mem_char, length,
}

-- At a position, with whether it starts a line: the replacement and the rest.
abbrev pub Pattern : Type 0
Pattern = Bool → Text → Option (Text × Text)

-- `re.sub`, at a position; the number is how many characters the last match has yet to take.
unfoldable pub sub_from : Pattern → Bool → ℕ → Text → Text
sub_from p start n [] = []
sub_from p start (suc n) (c ∷ s) = sub_from p (c == b'\n') n s
sub_from p start zero (c ∷ s) = elim (p start (c ∷ s)) [
  | none ↦ c ∷ sub_from p (c == b'\n') zero s
  | some (r, rest) ↦ r ++ sub_from p (c == b'\n') (length s - length rest) s
]

unfoldable pub sub : Pattern → Text → Text
unfolding sub_from
sub p s = sub_from p true zero s

-- `[ \t]`
abbrev pub is_blank : ℕ → Bool
is_blank c = c == b' ' || c == b'\t'

-- `[ \t]*`, and `[ \t]+`: what is behind
unfoldable pub blanks : Text → Text
blanks [] = []
blanks (c ∷ s) = if is_blank c then blanks s else c ∷ s

unfoldable pub some_blanks : Text → Option Text
unfolding blanks
some_blanks [] = none
some_blanks (c ∷ s) = if is_blank c then some (blanks s) else none

-- A literal.
unfoldable pub drop_prefix : Text → Text → Option Text
drop_prefix [] s = some s
drop_prefix (d ∷ f) [] = none
drop_prefix (d ∷ f) (c ∷ s) = let rest = drop_prefix f s in if c == d then rest else none

abbrev pub push : ℕ → Option (Text × Text) → Option (Text × Text)
push c none = none
push c (some (body, rest)) = some (c ∷ body, rest)

-- `([^x]*)x`
unfoldable pub until : ℕ → Text → Option (Text × Text)
until x [] = none
until x (c ∷ s) = let later = push c (until x s) in if c == x then some ([], s) else later

-- The body is not empty.
abbrev pub nonempty : Option (Text × Text) → Option (Text × Text)
nonempty none = none
nonempty (some ([], rest)) = none
nonempty (some (c ∷ body, rest)) = some (c ∷ body, rest)

-- `\([^)]*\)` behind a body
unfoldable pub behind_target : Option (Text × Text) → Option (Text × Text)
unfolding until
behind_target none = none
behind_target (some (body, [])) = none
behind_target (some (body, c ∷ s)) =
    let target = until b')' s in
    if c == b'(' then elim target [ none ↦ none | some (_, rest) ↦ some (body, rest) ] else none

-- `(.*?)` and the fence behind it
unfoldable pub lazy_body : Text → Text → Option (Text × Text)
unfolding drop_prefix
lazy_body fence [] = none
lazy_body fence (c ∷ s) =
    let later = push c (lazy_body fence s) in
    elim (drop_prefix fence (c ∷ s)) [
      | some rest ↦ some ([], rest)
      | none ↦ if c == b'\n' then none else later
    ]

-- `(.+?)` and the fence behind it
unfoldable pub fenced_body : Text → Text → Option (Text × Text)
unfolding lazy_body
fenced_body fence [] = none
fenced_body fence (c ∷ s) = if c == b'\n' then none else push c (lazy_body fence s)

unfoldable pub fenced : Text → Text → Option (Text × Text)
unfolding drop_prefix fenced_body
fenced fence s = elim (drop_prefix fence s) [ none ↦ none | some rest ↦ fenced_body fence rest ]

-- `a|b`
abbrev pub or_else : Option (Text × Text) → Option (Text × Text) → Option (Text × Text)
or_else none other = other
or_else (some found) other = some found

-- `_IMAGE`
unfoldable pub image : Pattern
unfolding drop_prefix until behind_target
image start s = elim (drop_prefix (codes "![") s) [
  | none ↦ none
  | some rest ↦ behind_target (until b']' rest)
]

-- `_LINK`
unfoldable pub link : Pattern
unfolding drop_prefix until behind_target
link start s = elim (drop_prefix (codes "[") s) [
  | none ↦ none
  | some rest ↦ behind_target (nonempty (until b']' rest))
]

-- The rest of `#{1,6}[ \t]+`, with so many more hashes allowed.
unfoldable pub behind_hashes : ℕ → Text → Option Text
unfolding blanks
behind_hashes n [] = none
behind_hashes zero (c ∷ s) = if is_blank c then some (blanks s) else none
behind_hashes (suc n) (c ∷ s) =
    let rest = behind_hashes n s in
    if is_blank c then some (blanks s) else if c == b'#' then rest else none

abbrev pub erase : Option Text → Option (Text × Text)
erase none = none
erase (some rest) = some ([], rest)

-- `_HEADER`
unfoldable pub header : Pattern
unfolding behind_hashes
header start [] = none
header start (c ∷ s) = if start && c == b'#' then erase (behind_hashes 5 s) else none

-- `[-*+][ \t]+`
unfoldable pub marker : Text → Option Text
unfolding some_blanks
marker [] = none
marker (c ∷ s) = if c == b'-' || (c == b'*' || c == b'+') then some_blanks s else none

-- `_LIST_MARKER`
unfoldable pub list_marker : Pattern
unfolding blanks marker
list_marker start s = if start then erase (marker (blanks s)) else none

-- `_BOLD_ITALIC`, `_BOLD`, `_ITALIC`, `_STRIKETHROUGH`
unfoldable pub bold_italic : Pattern
unfolding fenced
bold_italic start s = or_else (fenced (codes "***") s) (fenced (codes "___") s)

unfoldable pub bold : Pattern
unfolding fenced
bold start s = or_else (fenced (codes "**") s) (fenced (codes "__") s)

unfoldable pub italic : Pattern
unfolding fenced
italic start s = or_else (fenced (codes "*") s) (fenced (codes "_") s)

unfoldable pub strikethrough : Pattern
unfolding fenced
strikethrough start s = fenced (codes "~~") s

-- `_INLINE_CODE`
unfoldable pub inline_code : Pattern
unfolding drop_prefix until
inline_code start s = elim (drop_prefix (codes "`") s) [
  | none ↦ none
  | some rest ↦ nonempty (until b'`' rest)
]

-- `[*_`~#]`
unfoldable pub is_symbol : ℕ → Bool
unfolding mem_char
is_symbol c = mem_char c (codes "*_`~#")

-- `_LEFTOVER_SYMBOLS`
unfoldable pub leftover_symbol : Pattern
unfolding is_symbol
leftover_symbol start [] = none
leftover_symbol start (c ∷ s) = if is_symbol c then some ([], s) else none

-- `_REPEATED_SPACES`
unfoldable pub repeated_spaces : Pattern
unfolding blanks
repeated_spaces start [] = none
repeated_spaces start (c ∷ []) = none
repeated_spaces start (c ∷ d ∷ s) =
    if is_blank c && is_blank d then some (b' ' ∷ [], blanks s) else none

-- The passes but the last two, in order.
abbrev pub markup : List Pattern
markup =
    image ∷ link ∷ header ∷ list_marker ∷ bold_italic ∷ bold ∷ italic ∷ strikethrough ∷ inline_code
    ∷ []

unfoldable pub sub_all : List Pattern → Text → Text
unfolding sub
sub_all [] s = s
sub_all (p ∷ ps) s = sub_all ps (sub p s)

unfoldable pub strip_markdown : Text → Text
unfolding sub sub_all
strip_markdown [] = []
strip_markdown (c ∷ s) = sub repeated_spaces (sub leftover_symbol (sub_all markup (c ∷ s)))
