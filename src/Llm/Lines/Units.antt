-- ===== src/Llm/Lines/Units.antt =====
-- A JSON string reads back as the units and the characters that it was written from.
use bibi_core.Base.{
  ℕ, zero, suc, ◌+◌, ◌-◌, ◌/◌, ◌%◌, ◌≤◌, ◌<◌, ◌≡◌, refl, sym, ap, subst, ◌∙◌, ◌≢◌, ◌⊎◌, inl, inr,
  some, List, [], ◌∷◌, ◌++◌, append_assoc, ltb, leb, ◌==◌, ◌&&◌, Bool-cases, Text, All, length,
  length-append, arith,
}
use bibi_core.Llm.Lines.{units_of, units, hex_digit, hex_escape, escape, escaped, json_string}
use bibi_core.Llm.Lines.Reader.{
  read_digit, read_hex, read_letter, read_escape, read_unit, cons_unit, read_units, join_units,
  read_string,
}

read-hex_digit : (d : ℕ) → d < 16 → read_digit (hex_digit d) ≡ some d
unfolding read_digit hex_digit
read-hex_digit d h = ground arith

read_hex-back :
    (u : ℕ) (rest : Text) → u < 0x10000 → read_unit (hex_escape u ++ rest) ≡ some (u, rest)
unfolding hex_escape read_unit read_escape read_hex
read_hex-back u rest h = ground (
  arith,
  read-hex_digit (u / 4096),
  read-hex_digit (u / 256 % 16),
  read-hex_digit (u / 16 % 16),
  read-hex_digit (u % 16),
)

-- A letter behind a backslash.
abbrev Short : ℕ → Type 0
Short u =
    (letter : ℕ) × (escape u ≡ b'\\' ∷ letter ∷ [])
    × (read_letter letter ≡ some u)
    × (letter ≢ b'u')
    × (32 ≤ letter)
    × (letter ≤ 126)

abbrev Plain : ℕ → Type 0
Plain u = (escape u ≡ u ∷ []) × (32 ≤ u) × (u ≤ 126) × (u ≢ b'"') × (u ≢ b'\\')

short :
    (u letter : ℕ)
    → escape u ≡ b'\\' ∷ letter ∷ []
    → read_letter letter ≡ some u
    → letter ≢ b'u'
    → 32 ≤ letter
    → letter ≤ 126
    → Short u
short u letter e r n l m = (letter, e, r, n, l, m)

-- The three forms of an escape.
pub escape-cases : (u : ℕ) → Short u ⊎ (Plain u ⊎ (escape u ≡ hex_escape u))
unfolding escape read_letter
escape-cases u = elim (Bool-cases (u == b'"')) [
  | inl e0 ↦
      inl (short u b'"' (ground arith) (ground arith) (ground arith) (omega arith) (omega arith))
  | inr n0 ↦ elim (Bool-cases (u == b'\\')) [
    | inl e1 ↦
        inl (short u b'\\' (ground arith) (ground arith) (ground arith) (omega arith) (omega arith))
    | inr n1 ↦ elim (Bool-cases (u == 10)) [
      | inl e2 ↦
          inl
            (short u b'n' (ground arith) (ground arith) (ground arith) (omega arith) (omega arith))
      | inr n2 ↦ elim (Bool-cases (u == 13)) [
        | inl e3 ↦
            inl (
              short u b'r' (ground arith) (ground arith) (ground arith) (omega arith) (omega arith))
        | inr n3 ↦ elim (Bool-cases (u == 9)) [
          | inl e4 ↦ inl (
              short u b't' (ground arith) (ground arith) (ground arith) (omega arith) (omega arith))
          | inr n4 ↦ elim (Bool-cases (u == 12)) [
            | inl e5 ↦ inl (
                short u b'f' (ground arith) (ground arith) (ground arith) (omega arith)
                  (omega arith))
            | inr n5 ↦ elim (Bool-cases (u == 8)) [
              | inl e6 ↦ inl (
                  short u b'b' (ground arith) (ground arith) (ground arith) (omega arith)
                    (omega arith))
              | inr n6 ↦ elim (Bool-cases (leb 32 u && leb u 126)) [
                | inl p ↦ inr (inl (ground arith))
                | inr q ↦ inr (inr (ground arith))
              ]
            ]
          ]
        ]
      ]
    ]
  ]
]

abbrev pub IsUnit : ℕ → Type 0
IsUnit u = u < 0x10000

-- An escape begins with no quote and reads back.
abbrev Readable : ℕ → Text → Type 0
Readable u e =
    (c : ℕ) × (t : Text) × (e ≡ c ∷ t)
    × (c ≢ b'"')
    × ((rest : Text) → read_unit (c ∷ (t ++ rest)) ≡ some (u, rest))

escape-Readable : (u : ℕ) → IsUnit u → Readable u (escape u)
unfolding read_unit read_escape hex_escape
escape-Readable u h = elim (escape-cases u) [
  | inl (letter, e, r, n, _, _) ↦
      (b'\\', letter ∷ [], e, (λ q. omega (arith, q)), λ rest. ground arith)
  | inr (inl (e, lo, hi, q, b)) ↦ (u, [], e, q, λ rest. ground arith)
  | inr (inr e) ↦ (b'\\', _, e, (λ q. omega (arith, q)), λ rest. read_hex-back u rest h)
]

read_units-cons :
    (n c u : ℕ) (t rest : Text)
    → c ≢ b'"'
    → read_unit (c ∷ t) ≡ some (u, rest)
    → read_units (suc n) (c ∷ t) ≡ cons_unit u (read_units n rest)
unfolding read_units
read_units-cons n c u t rest ne h = ground arith

read_units-escaped :
    (us : List ℕ) (n : ℕ) (rest : Text)
    → All IsUnit us
    → length us < n
    → read_units n (escaped us ++ (b'"' ∷ rest)) ≡ some (us, rest)
unfolding read_units escaped
read_units-escaped us zero rest a lt = absurd (omega arith)
read_units-escaped [] (suc n) rest a lt = refl
read_units-escaped (u ∷ us) (suc n) rest (unit, a) lt =
    let (c, t, e, ne, back) = escape-Readable u unit in
    let later = escaped us ++ (b'"' ∷ rest) in
    rw (append_assoc, e)
      (read_units-cons n c u (t ++ later) later ne (back later)
        ∙ ap (cons_unit u) (read_units-escaped us n rest a (omega arith)))

length-escaped : (us : List ℕ) → All IsUnit us → length us ≤ length (escaped us)
unfolding escaped
length-escaped [] a = omega arith
length-escaped (u ∷ us) (unit, a) =
    let (c, t, e, _, _) = escape-Readable u unit in
    omega (arith, length-append (escape u) (escaped us), ap length e, length-escaped us a)

-- A character that is no surrogate.
abbrev pub IsScalar : ℕ → Type 0
IsScalar c = (c < 0xd800) ⊎ ((0xe000 ≤ c) × (c < 0x110000))

pub units-IsUnit : (t : Text) → All IsScalar t → All IsUnit (units t)
unfolding units units_of
units-IsUnit [] a = tt
units-IsUnit (c ∷ t) (scalar, a) = elim (Bool-cases (ltb c 0x10000)) [
  | inl small ↦ rw small (ground arith, units-IsUnit t a)
  | inr large ↦ rw large (ground arith, (ground arith, units-IsUnit t a))
]

join_plain :
    (c : ℕ) (us : List ℕ) → (c < 0xd800) ⊎ (0xe000 ≤ c) → join_units (c ∷ us) ≡ c ∷ join_units us
unfolding join_units
join_plain c [] h = refl
join_plain c (v ∷ us) h = ground arith

join_pair :
    (c : ℕ) (us : List ℕ)
    → 0x10000 ≤ c
    → c < 0x110000
    → join_units ((0xd800 + (c - 0x10000) / 1024) ∷ (0xdc00 + (c - 0x10000) % 1024) ∷ us)
      ≡ c ∷ join_units us
unfolding join_units
join_pair c us lo hi = ground arith

join_nil : join_units [] ≡ []
unfolding join_units
join_nil = refl

join-units : (t : Text) → All IsScalar t → join_units (units t) ≡ t
unfolding units units_of
join-units [] a = join_nil
join-units (c ∷ t) (scalar, a) = elim (Bool-cases (ltb c 0x10000)) [
  | inl small ↦ rw (small, join_plain c (units t) (ground arith), join-units t a) refl
  | inr large ↦
      rw large
        (join_pair c (units t) (ground arith) (ground arith) ∙ ap (λ s. c ∷ s) (join-units t a))
]

-- A text without surrogates, written as a JSON string, reads back, whatever follows.
pub read_string-json_string :
    (t rest : Text) → All IsScalar t → read_string (json_string t ++ rest) ≡ some (t, rest)
unfolding read_string json_string
read_string-json_string t rest a =
    let us = units t in
    let quoted = escaped us ++ (b'"' ∷ []) in
    let fuel = suc (length (quoted ++ rest)) in
    let enough : length us < fuel = omega (
      arith,
      length-append quoted rest,
      length-append (escaped us) (b'"' ∷ []),
      length-escaped us (units-IsUnit t a),
    ) in
    let back : read_units fuel (quoted ++ rest) ≡ some (us, rest) =
      subst (λ w. read_units fuel w ≡ some (us, rest))
        (sym (append_assoc (escaped us) (b'"' ∷ []) rest))
        (read_units-escaped us fuel rest (units-IsUnit t a) enough) in
    rw back (ap (λ s. some (s, rest)) (join-units t a))
