-- ===== src/Base/Texts.antt =====
-- Texts as lists of code points, with the string methods that the services call.
pub mod Laws
use Prim.Native.Nat.{ℕ}
use Prim.Native.Char.{code}
use Prim.Native.String.{String}
use mathlib.Core.Path.{◌≡◌, refl, ap}
use mathlib.Core.Bool.{Bool, true, false, ◌&&◌, ◌||◌, not}
use mathlib.Core.List.{List, [], ◌∷◌, ◌++◌, reverse}
use native.Mathlib.Decide.{ℕ_discrete}
use native.Mathlib.Omega.{arith}
use bibi_core.Base.Tests.{◌==◌, leb, if◌then◌else◌}

abbrev pub Text : Type 0
Text = List ℕ

-- The code points of a literal.
abbrev pub codes : String → Text
codes String.[] = []
codes (String.◌∷◌ c s) = code c ∷ codes s

unfoldable pub Text-discrete : Discrete Text
unfolding ℕ_discrete
Text-discrete [] [] = yes refl
Text-discrete [] (d ∷ t) = no (λ h. cc)
Text-discrete (c ∷ s) [] = no (λ h. cc)
Text-discrete (c ∷ s) (d ∷ t) = elim (ℕ_discrete c d) [
  | no p ↦ no (λ h. p (cc))
  | yes p ↦ elim (Text-discrete s t) [ no q ↦ no (λ h. q (cc)) | yes q ↦ yes (cc) ]
]

-- `s == t`
unfoldable pub text_eq : Text → Text → Bool
text_eq [] [] = true
text_eq [] (d ∷ t) = false
text_eq (c ∷ s) [] = false
text_eq (c ∷ s) (d ∷ t) = c == d && text_eq s t

-- `s in {…}`, for texts and for characters
unfoldable pub mem_text : Text → List Text → Bool
mem_text s [] = false
mem_text s (t ∷ ts) = text_eq s t || mem_text s ts

unfoldable pub mem_char : ℕ → List ℕ → Bool
mem_char c [] = false
mem_char c (d ∷ ds) = c == d || mem_char c ds

-- `str.isspace` of one character: the Unicode white space that `str.strip` removes.
unfoldable pub is_space : ℕ → Bool
is_space c =
    (leb 9 c && leb c 13)
    || (leb 28 c && leb c 32)
    || c == 0x85
    || c == 0xa0
    || c == 0x1680
    || (leb 0x2000 c && leb c 0x200a)
    || c == 0x2028
    || c == 0x2029
    || c == 0x202f
    || c == 0x205f
    || c == 0x3000

-- `s.lstrip()`
unfoldable pub lstrip : Text → Text
lstrip [] = []
lstrip (c ∷ s) = if is_space c then lstrip s else c ∷ s

-- `s.rstrip()`: a space goes if nothing but spaces follows it.
unfoldable pub push_strip : ℕ → Text → Text
push_strip c [] = if is_space c then [] else c ∷ []
push_strip c (d ∷ s) = c ∷ d ∷ s

unfoldable pub rstrip : Text → Text
unfolding push_strip
rstrip [] = []
rstrip (c ∷ s) = push_strip c (rstrip s)

-- `s.strip()`
unfoldable pub strip : Text → Text
unfolding lstrip rstrip is_space
strip s = rstrip (lstrip s)

-- `s.split(sep)` for a separator of one character
unfoldable pub push_word : ℕ → List Text → List Text
push_word c [] = (c ∷ []) ∷ []
push_word c (w ∷ ws) = (c ∷ w) ∷ ws

unfoldable pub split_on : ℕ → Text → List Text
unfolding push_word
split_on sep [] = [] ∷ []
split_on sep (c ∷ s) = let rest = split_on sep s in if c == sep then [] ∷ rest else push_word c rest

-- `xs[-1]`, with what an empty list gives instead
unfoldable pub last_or {ℓ} : {A : Type ℓ} → A → List A → A
last_or a [] = a
last_or a (x ∷ xs) = last_or x xs
