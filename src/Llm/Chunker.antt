-- ===== src/Llm/Chunker.antt =====
-- llm/utils/chunker.py, with `ChunkingConfig` of llm/config.py. A token stream is the list of its tokens with the exception that ends it, if
-- one does. `lower` and `is_digit` stand for Python's Unicode tables.
pub mod Strip
pub mod Laws
pub mod Numbers
pub mod Bounds
use bibi_core.Base.{
  ℕ, zero, suc, ◌+◌, ◌-◌, ◌<◌, Bool, true, false, not, ◌&&◌, ◌||◌, Option, none, some, List, [],
  ◌∷◌, ◌++◌, ltb, leb, ◌==◌, if◌then◌else◌, Text, codes, strip, split_on, last_or, mem_text,
  mem_char, length,
}

pub record Unicode : Type 0 where
  pub lower : Text → Text
  pub is_digit : ℕ → Bool

-- `ChunkingConfig`; a boundary is one character.
pub record Chunking : Type 0 where
  pub boundary_chars : List ℕ
  pub max_chunk_chars : ℕ
  pub min_chunk_chars : ℕ

abbrev pub default_chunking : Chunking
default_chunking = record {
  boundary_chars = codes ".?!";
  max_chunk_chars = 200;
  min_chunk_chars = 10;
}

abbrev pub abbreviations : List Text
abbreviations =
    codes "mr."
    ∷ codes "mrs."
    ∷ codes "ms."
    ∷ codes "dr."
    ∷ codes "prof."
    ∷ codes "sr."
    ∷ codes "jr."
    ∷ codes "vs."
    ∷ codes "etc."
    ∷ []

-- `text.rfind(c)`; `none` is -1
unfoldable pub rfind : ℕ → Text → Option ℕ
rfind c [] = none
rfind c (d ∷ s) = elim (rfind c s) [
  | some i ↦ some (suc i)
  | none ↦ if d == c then some 0 else none
]

-- `text[i]`, within bounds
unfoldable pub char_at : Text → ℕ → ℕ
char_at [] i = 0
char_at (c ∷ s) zero = c
char_at (c ∷ s) (suc i) = char_at s i

-- A chunk before what follows.
abbrev pub yield_chunk : {X : Type 0} → Text → List Text × Option X → List Text × Option X
yield_chunk c (cs, x) = (c ∷ cs, x)

-- The flush when the stream ends.
unfoldable pub remainder : Text → List Text
remainder [] = []
remainder (c ∷ s) = (c ∷ s) ∷ []

module _ (unicode : Unicode) where
  unfoldable pub ends_with_abbreviation : Text → Bool
  unfolding strip split_on last_or mem_text
  ends_with_abbreviation text = elim (strip text) [
    | [] ↦ mem_text [] abbreviations
    | c ∷ s ↦ mem_text (unicode.lower (last_or [] (split_on b' ' (c ∷ s)))) abbreviations
  ]

  unfoldable pub is_mid_number : Text → ℕ → Bool
  unfolding rfind char_at
  is_mid_number text boundary = if not (boundary == b'.') then false else elim (rfind b'.' text) [
    | none ↦ false
    | some i ↦
        if leb i 0 || leb (length text - 1) i
        then false
        else unicode.is_digit (char_at text (i - 1)) && unicode.is_digit (char_at text (i + 1))
  ]

  module _ (config : Chunking) where
    -- `hit_boundary`, after the two tests that clear it
    unfoldable pub hit_boundary : Text → Bool
    hit_boundary stripped =
        mem_char (last_or 0 stripped) config.boundary_chars
        && not (is_mid_number stripped (last_or 0 stripped))
        && not (ends_with_abbreviation stripped)

    unfoldable pub should_flush : Text → Bool
    should_flush stripped =
        (hit_boundary stripped && leb config.min_chunk_chars (length stripped))
        || leb config.max_chunk_chars (length stripped)

    unfoldable pub chunk_loop : {X : Type 0} → Text → List Text → Option X → List Text × Option X
    unfolding remainder
    chunk_loop buffer [] none = (remainder (strip buffer), none)
    chunk_loop buffer [] (some x) = ([], some x)
    chunk_loop buffer (token ∷ tokens) x =
        let grown = buffer ++ token in
        let cleared = chunk_loop [] tokens x in
        let carried = chunk_loop grown tokens x in
        elim (strip grown) [
          | [] ↦ carried
          | c ∷ s ↦ if should_flush (c ∷ s) then yield_chunk (c ∷ s) cleared else carried
        ]

    unfoldable pub chunk_stream : {X : Type 0} → List Text × Option X → List Text × Option X
    unfolding chunk_loop
    chunk_stream (tokens, x) = chunk_loop [] tokens x
