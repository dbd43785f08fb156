-- ===== src/Tts/Markdown/Scans.antt =====
-- What the scanning functions take off a text.
use bibi_core.Base.{
  ℕ, zero, suc, ◌-◌, ◌≡◌, refl, ap, ◌∙◌, ◌||◌, Bool, Option, none, some, [], ◌∷◌, ◌++◌, ◌==◌, arith,
  Text, length, Option-cases, Bool-cases, inl, inr,
}
use bibi_core.Tts.Markdown.{
  Pattern, sub_from, is_blank, blanks, some_blanks, drop_prefix, push, until, nonempty,
  behind_target, lazy_body, fenced_body, fenced, behind_hashes, marker,
}

-- Something stands in front of the rest.
abbrev pub Cuts : Text → Text → Type 0
Cuts s rest = (pre : Text) × (s ≡ pre ++ rest)

pub blanks-Cuts : (s : Text) → Cuts s (blanks s)
unfolding blanks
blanks-Cuts [] = ([], refl)
blanks-Cuts (c ∷ s) = elim (Bool-cases (is_blank c)) [
  | inl yes_blank ↦
      let (pre, same) = blanks-Cuts s in (c ∷ pre, rw yes_blank (ap (λ t. c ∷ t) same))
  | inr other ↦ ([], rw other)
]

pub some_blanks-Cuts : (s rest : Text) → some_blanks s ≡ some rest → Cuts s rest
unfolding some_blanks
some_blanks-Cuts [] rest h = cc
some_blanks-Cuts (c ∷ s) rest h = elim (Bool-cases (is_blank c)) [
  | inl yes_blank ↦ let (pre, same) = blanks-Cuts s in (c ∷ pre, ground (arith, same))
  | inr other ↦ absurd (ground arith)
]

pub drop_prefix_lem : (f s rest : Text) → drop_prefix f s ≡ some rest → s ≡ f ++ rest
unfolding drop_prefix
drop_prefix_lem [] s rest h = cc
drop_prefix_lem (d ∷ f) [] rest h = cc
drop_prefix_lem (d ∷ f) (c ∷ s) rest h = ground (arith, drop_prefix_lem f s rest)

push_inv :
    (c : ℕ) (o : Option (Text × Text)) (body rest : Text)
    → push c o ≡ some (body, rest)
    → (b : Text) × (o ≡ some (b, rest)) × (body ≡ c ∷ b)
push_inv c none body rest h = cc
push_inv c (some (b, rest')) body rest h = (b, cc, cc)

pub until_lem : (x : ℕ) (s body rest : Text) → until x s ≡ some (body, rest) → s ≡ body ++ x ∷ rest
unfolding until
until_lem x [] body rest h = cc
until_lem x (c ∷ s) body rest h = elim (Bool-cases (c == x)) [
  | inl here ↦ ground arith
  | inr later ↦
      let (b, found, same) = push_inv c (until x s) body rest (rw later at h) in
      rw same (ap (λ t. c ∷ t) (until_lem x s b rest found))
]

pub nonempty_lem :
    (o : Option (Text × Text)) (body rest : Text)
    → nonempty o ≡ some (body, rest)
    → o ≡ some (body, rest)
nonempty_lem none body rest h = cc
nonempty_lem (some ([], r)) body rest h = cc
nonempty_lem (some (c ∷ b, r)) body rest h = h

-- A target in brackets stood between.
pub behind_target_lem :
    (o : Option (Text × Text)) (body rest : Text)
    → behind_target o ≡ some (body, rest)
    → (mid target : Text) × (o ≡ some (body, mid)) × (mid ≡ b'(' ∷ target ++ b')' ∷ rest)
unfolding behind_target
behind_target_lem none body rest h = cc
behind_target_lem (some (b, [])) body rest h = cc
behind_target_lem (some (b, c ∷ s)) body rest h = elim (Option-cases (until b')' s)) [
  | inl no_target ↦ absurd (ground arith)
  | inr ((t, r), found) ↦
      let same = until_lem b')' s t r found in (c ∷ s, t, ground arith, ground (arith, same))
]

pub lazy_body_lem :
    (f s body rest : Text) → lazy_body f s ≡ some (body, rest) → s ≡ body ++ (f ++ rest)
unfolding lazy_body
lazy_body_lem f [] body rest h = cc
lazy_body_lem f (c ∷ s) body rest h = elim (Option-cases (drop_prefix f (c ∷ s))) [
  | inr (r, found) ↦ let same = drop_prefix_lem f (c ∷ s) r found in ground (arith, same)
  | inl not_here ↦ elim (Bool-cases (c == b'\n')) [
    | inl line_end ↦ absurd (ground arith)
    | inr other ↦
        let (b, found, same) =
          push_inv c (lazy_body f s) body rest (rw other at (rw (not_here, lazy_body) at h)) in
        rw same (ap (λ t. c ∷ t) (lazy_body_lem f s b rest found))
  ]
]

pub fenced_lem :
    (f s body rest : Text) → fenced f s ≡ some (body, rest) → s ≡ f ++ (body ++ (f ++ rest))
unfolding fenced fenced_body
fenced_lem f s body rest h = elim (Option-cases (drop_prefix f s)) [
  | inl no_fence ↦ absurd (ground arith)
  | inr ([], found) ↦ absurd (ground arith)
  | inr (c ∷ t, found) ↦ elim (Bool-cases (c == b'\n')) [
    | inl line_end ↦ absurd (ground arith)
    | inr other ↦
        let (b, inside, same) =
          push_inv c (lazy_body f t) body rest (rw other at (rw (found, fenced) at h)) in
        drop_prefix_lem f s (c ∷ t) found
        ∙ ap (λ u. f ++ u) (rw same (ap (λ u. c ∷ u) (lazy_body_lem f t b rest inside)))
  ]
]

pub behind_hashes-Cuts : (n : ℕ) (s rest : Text) → behind_hashes n s ≡ some rest → Cuts s rest
unfolding behind_hashes
behind_hashes-Cuts n [] rest h = cc
behind_hashes-Cuts zero (c ∷ s) rest h =
    let (pre, same) = blanks-Cuts s in (c ∷ pre, ground (arith, same))
behind_hashes-Cuts (suc n) (c ∷ s) rest h = elim (Bool-cases (is_blank c)) [
  | inl yes_blank ↦ let (pre, same) = blanks-Cuts s in (c ∷ pre, ground (arith, same))
  | inr other ↦ elim (Bool-cases (c == b'#')) [
    | inl hash ↦
        let (pre, same) = behind_hashes-Cuts n s rest (rw (other, hash) at h) in
        (c ∷ pre, ap (λ t. c ∷ t) same)
    | inr neither ↦ absurd (ground arith)
  ]
]

pub marker-Cuts :
    (s rest : Text) → marker s ≡ some rest → (c : ℕ) × (pre : Text) × (s ≡ c ∷ pre ++ rest)
unfolding marker
marker-Cuts [] rest h = cc
marker-Cuts (c ∷ s) rest h = elim (Bool-cases (c == b'-' || (c == b'*' || c == b'+'))) [
  | inl mark ↦
      let (pre, same) = some_blanks-Cuts s rest (rw mark at h) in (c, pre, ap (λ t. c ∷ t) same)
  | inr other ↦ absurd (ground arith)
]

-- The two ways of a pass at a character.
pub sub_from-none :
    (p : Pattern) (start : Bool) (c : ℕ) (s : Text)
    → p start (c ∷ s) ≡ none
    → sub_from p start zero (c ∷ s) ≡ c ∷ sub_from p (c == b'\n') zero s
unfolding sub_from
sub_from-none p start c s h = rw (h, sub_from)

pub sub_from-some :
    (p : Pattern) (start : Bool) (c : ℕ) (s r rest : Text)
    → p start (c ∷ s) ≡ some (r, rest)
    → sub_from p start zero (c ∷ s) ≡ r ++ sub_from p (c == b'\n') (length s - length rest) s
unfolding sub_from
sub_from-some p start c s r rest h = rw (h, sub_from)
