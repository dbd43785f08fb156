-- ===== src/Catalogue/Laws.antt =====
-- What is listed, and what can be resolved.
use bibi_core.Base.{
  ℕ, ◌≡◌, refl, sym, ap, subst, ◌∙◌, ◌≢◌, ◌⊎◌, ◌↔◌, inl, inr, true, false, ◌==◌, Option, none, some,
  List, [], ◌∷◌, ◌++◌, arith, All, Text, text_eq, codes, ok, Bool-cases, Option-cases, length,
  length-append,
}
use bibi_core.Base.Texts.Laws.{text_eq_iff}
use bibi_core.Catalogue.{
  Entry, is_file, text_leb, insert_sorted, sorted, push_char, drop_suffix, bin_stems, all_points,
  stem_of, whisper_available,
}
use bibi_core.Stt.Whisper.{resolve_path}

abbrev pub IsMember : Text → List Text → Type 0
IsMember s [] = ⊥
IsMember s (t ∷ ts) = (s ≡ t) ⊎ IsMember s ts

-- Every entry is a file.
abbrev pub HasFiles : List Entry → Type 0
HasFiles = All (λ e. e.file ≡ true)

insert_sorted-IsMember :
    (s t : Text) (ts : List Text) → IsMember s (insert_sorted t ts) → (s ≡ t) ⊎ IsMember s ts
unfolding insert_sorted
insert_sorted-IsMember s t [] (inl e) = inl e
insert_sorted-IsMember s t [] (inr h) = absurd h
insert_sorted-IsMember s t (u ∷ ts) h = elim (Bool-cases (text_leb t u)) [
  | inl before ↦ (rw before at h)
  | inr after ↦ elim (rw after at h) [
    | inl e ↦ inr (inl e)
    | inr later ↦ elim (insert_sorted-IsMember s t ts later) [
      | inl e ↦ inl e
      | inr old ↦ inr (inr old)
    ]
  ]
]

sorted-IsMember : (s : Text) (ts : List Text) → IsMember s (sorted ts) → IsMember s ts
unfolding sorted
sorted-IsMember s [] h = h
sorted-IsMember s (t ∷ ts) h = elim (insert_sorted-IsMember s t (sorted ts) h) [
  | inl e ↦ inl e
  | inr old ↦ inr (sorted-IsMember s ts old)
]

push_char_inv :
    (c : ℕ) (o : Option Text) (t : Text)
    → push_char c o ≡ some t
    → (u : Text) × (o ≡ some u) × (t ≡ c ∷ u)
push_char_inv c none t h = cc
push_char_inv c (some u) t h = (u, refl, cc)

drop_suffix_lem : (suffix s t : Text) → drop_suffix suffix s ≡ some t → s ≡ t ++ suffix
unfolding drop_suffix
drop_suffix_lem suffix [] t h = elim (Bool-cases (text_eq [] suffix)) [
  | inl same ↦ let e = (text_eq_iff [] suffix).0 same in ground (arith, e)
  | inr other ↦ absurd (ground arith)
]
drop_suffix_lem suffix (c ∷ s) t h = elim (Bool-cases (text_eq (c ∷ s) suffix)) [
  | inl same ↦ let e = (text_eq_iff (c ∷ s) suffix).0 same in ground (arith, e)
  | inr other ↦
      let (u, found, same) = push_char_inv c (drop_suffix suffix s) t (rw other at h) in
      rw same (ap (λ v. c ∷ v) (drop_suffix_lem suffix s u found))
]

pub is_file_here : (e : Entry) (es : List Entry) → e.file ≡ true → is_file (e ∷ es) e.name ≡ true
unfolding is_file
is_file_here e es h = ground (arith, h, (text_eq_iff e.name e.name).1 refl)

pub is_file_there :
    (e : Entry) (es : List Entry) (name : Text)
    → is_file es name ≡ true
    → is_file (e ∷ es) name ≡ true
unfolding is_file
is_file_there e es name h = ground (arith, h)

-- A name that has a character that is no point, and is not points before the suffix of a model.
abbrev pub IsUsable : Text → Type 0
IsUsable name =
    (all_points name ≡ false) × ((s : Text) → all_points s ≡ true → name ≢ s ++ codes ".bin")

-- Such is every name that does not begin with a point.
pub letter_first-IsUsable : (c : ℕ) (s : Text) → (c == 46) ≡ false → IsUsable (c ∷ s)
unfolding all_points
letter_first-IsUsable c s letter = (rw letter refl, no_point)
  where
    no_point : (t : Text) → all_points t ≡ true → c ∷ s ≢ t ++ codes ".bin"
    no_point [] points h = let same : c ≡ 46 = cc in ground (arith, rw same at letter)
    no_point (d ∷ t) points h = let same : c ≡ d = cc in ground (arith, rw same at letter)

bin_stems-is_file :
    (es : List Entry) (name : Text)
    → HasFiles es
    → IsUsable name
    → IsMember name (bin_stems es)
    → is_file es (name ++ codes ".bin") ≡ true
unfolding bin_stems stem_of
bin_stems-is_file [] name files ne h = absurd h
bin_stems-is_file (e ∷ es) name files ne h =
    elim (Option-cases (drop_suffix (codes ".bin") e.name)) [
      | inl no_bin ↦
          is_file_there e es _ (bin_stems-is_file es name files.1 ne (rw (no_bin, bin_stems) at h))
      | inr (s, found) ↦ elim (rw (found, bin_stems) at h) [
        | inr later ↦ is_file_there e es _ (bin_stems-is_file es name files.1 ne later)
        | inl same ↦ elim (Bool-cases (all_points s)) [
          | inl points ↦ absurd (ne.1 s points (rw (points, stem_of) at same))
          | inr stem ↦
              let named : name ≡ s = rw (stem, stem_of) at same in
              let whole : e.name ≡ name ++ codes ".bin" =
                drop_suffix_lem (codes ".bin") e.name s found
                ∙ ap (λ t. t ++ codes ".bin") (sym named) in
              subst (λ t. is_file (e ∷ es) t ≡ true) whole (is_file_here e es files.0)
        ]
      ]
    ]

insert_sorted_new : (t : Text) (ts : List Text) → IsMember t (insert_sorted t ts)
unfolding insert_sorted
insert_sorted_new t [] = inl refl
insert_sorted_new t (u ∷ ts) = elim (Bool-cases (text_leb t u)) [
  | inl before ↦ rw (before, insert_sorted) (inl refl)
  | inr after ↦ rw (after, insert_sorted) (inr (insert_sorted_new t ts))
]

insert_sorted_old : (s t : Text) (ts : List Text) → IsMember s ts → IsMember s (insert_sorted t ts)
unfolding insert_sorted
insert_sorted_old s t [] h = absurd h
insert_sorted_old s t (u ∷ ts) h = elim (Bool-cases (text_leb t u)) [
  | inl before ↦ rw (before, insert_sorted) (inr h)
  | inr after ↦
      rw (after, insert_sorted)
        (elim h [ inl same ↦ inl same | inr later ↦ inr (insert_sorted_old s t ts later) ])
]

IsMember-sorted : (s : Text) (ts : List Text) → IsMember s ts → IsMember s (sorted ts)
unfolding sorted
IsMember-sorted s [] h = h
IsMember-sorted s (t ∷ ts) (inl same) =
    subst (λ u. IsMember u (insert_sorted t (sorted ts))) (sym same)
      (insert_sorted_new t (sorted ts))
IsMember-sorted s (t ∷ ts) (inr later) =
    insert_sorted_old s t (sorted ts) (IsMember-sorted s ts later)

drop_suffix_append : (c : ℕ) (suffix t : Text) → drop_suffix (c ∷ suffix) (t ++ c ∷ suffix) ≡ some t
unfolding drop_suffix
drop_suffix_append c suffix [] = rw ((text_eq_iff (c ∷ suffix) (c ∷ suffix)).1 refl) refl
drop_suffix_append c suffix (d ∷ t) =
    elim (Bool-cases (text_eq (d ∷ t ++ c ∷ suffix) (c ∷ suffix))) [
      | inl same ↦
          let e : length (d ∷ t ++ c ∷ suffix) ≡ length (c ∷ suffix) =
            ap length ((text_eq_iff (d ∷ t ++ c ∷ suffix) (c ∷ suffix)).0 same) in
          absurd (omega (arith, e, length-append t (c ∷ suffix)))
      | inr other ↦ rw other (rw (drop_suffix_append c suffix t) refl)
    ]

is_file-bin_stems :
    (es : List Entry) (name : Text)
    → all_points name ≡ false
    → is_file es (name ++ codes ".bin") ≡ true
    → IsMember name (bin_stems es)
unfolding bin_stems is_file stem_of
is_file-bin_stems [] name stem h = absurd (ground (arith, h))
is_file-bin_stems (e ∷ es) name stem h = elim (Bool-cases (text_eq e.name (name ++ codes ".bin"))) [
  | inl same ↦
      let whole = (text_eq_iff e.name (name ++ codes ".bin")).0 same in
      rw (whole, drop_suffix_append 46 (codes "bin") name, bin_stems)
        (rw (stem, stem_of) (inl refl))
  | inr other ↦
      let later = is_file-bin_stems es name stem (ground (arith, rw other at h)) in
      elim (Option-cases (drop_suffix (codes ".bin") e.name)) [
        | inl no_bin ↦ rw (no_bin, bin_stems) later
        | inr (t, found) ↦ rw (found, bin_stems) (inr later)
      ]
]

-- A name of a file for whisper.cpp.
pub whisper_available_iff :
    (es : List Entry) (name : Text)
    → HasFiles es
    → IsUsable name
    → IsMember name (whisper_available es)
      ↔ (resolve_path (is_file es) name ≡ ok (name ++ codes ".bin"))
unfolding whisper_available resolve_path
whisper_available_iff es name files usable = (
  λ h. rw (bin_stems-is_file es name files usable (sorted-IsMember name (bin_stems es) h)) refl,
  λ h. elim (Bool-cases (is_file es (name ++ codes ".bin"))) [
    | inl there ↦ IsMember-sorted name (bin_stems es) (is_file-bin_stems es name usable.0 there)
    | inr missing ↦ absurd (cc)
  ],
)
