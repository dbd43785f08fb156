-- ===== src/Llm/Chunker/Bounds.antt =====
-- How long the chunks are.
use bibi_core.Base.{
  ℕ, ◌+◌, ◌≤◌, ◌<◌, ◌≡◌, refl, ap, ◌⊎◌, inl, inr, true, false, Option, none, some, List, [], ◌∷◌,
  ◌++◌, min, Text, strip, All, arith, length, length-append,
}
use bibi_core.Llm.Chunker.{Unicode, Chunking, should_flush, remainder, chunk_loop, chunk_stream}
use bibi_core.Llm.Chunker.Strip.{squeeze, squeeze-append, squeeze-strip}
use bibi_core.Llm.Chunker.Laws.{chunk_loop-cut, cut-cases}

length-squeeze : (s : Text) → length (squeeze s) ≤ length s
unfolding squeeze
length-squeeze [] = omega arith
length-squeeze (c ∷ s) = ground (arith, length-squeeze s)

length-squeeze-strip : (s : Text) → length (squeeze s) ≤ length (strip s)
length-squeeze-strip s = omega (arith, length-squeeze (strip s), ap length (squeeze-strip s))

module _ (unicode : Unicode) (config : Chunking) where
  not_full : (s : Text) → should_flush unicode config s ≡ false → length s < config.max_chunk_chars
  unfolding should_flush
  not_full s h = ground arith

  flushed :
      (s : Text)
      → should_flush unicode config s ≡ true
      → min config.min_chunk_chars config.max_chunk_chars ≤ length s
  unfolding should_flush
  flushed s h = ground arith

  -- Every chunk but the last has as many characters as the smaller of the two limits.
  abbrev pub AllLong : List Text → Type 0
  AllLong [] = Unit {0}
  AllLong (c ∷ cs) =
      ((min config.min_chunk_chars config.max_chunk_chars ≤ length c) ⊎ (cs ≡ [])) × AllLong cs

  module _ (longest : ℕ) where
    -- So many visible characters at most.
    abbrev pub IsShort : Text → Type 0
    IsShort c = length (squeeze c) < config.max_chunk_chars + longest

    abbrev pub Bounded : {X : Type 0} → List Text × Option X → Type 0
    Bounded out = All IsShort out.0 × AllLong out.0

    -- What is in the buffer between two tokens.
    abbrev IsCarried : Text → Type 0
    IsCarried buffer = length (squeeze buffer) < config.max_chunk_chars

    remainder-Bounded :
        (s : Text)
        → length (squeeze s) < config.max_chunk_chars
        → All IsShort (remainder s) × AllLong (remainder s)
    unfolding remainder
    remainder-Bounded [] h = (tt, tt)
    remainder-Bounded (c ∷ s) h = ((omega arith, tt), (inr refl, tt))

    short_enough :
        (s : Text)
        → 0 < config.max_chunk_chars
        → (strip s ≡ []) ⊎ (should_flush unicode config (strip s) ≡ false)
        → IsCarried s
    short_enough s most (inl blank) = omega (arith, length-squeeze-strip s, ap length blank)
    short_enough s most (inr short) =
        omega (arith, length-squeeze-strip s, not_full (strip s) short)

    chunk_loop-Bounded :
        {X : Type 0} (buffer : Text) (tokens : List Text) (x : Option X)
        → 0 < config.max_chunk_chars
        → All (λ t. length t ≤ longest) tokens
        → IsCarried buffer
        → Bounded (chunk_loop unicode config buffer tokens x)
    unfolding chunk_loop squeeze
    chunk_loop-Bounded buffer [] none most a h =
        remainder-Bounded (strip buffer) (omega (arith, ap length (squeeze-strip buffer)))
    chunk_loop-Bounded buffer [] (some y) most a h = (tt, tt)
    chunk_loop-Bounded buffer (token ∷ tokens) x most (fits, a) h =
        let grown = buffer ++ token in
        let size : length (squeeze (strip grown)) < config.max_chunk_chars + longest = omega (
          arith,
          ap length (squeeze-strip grown),
          ap length (squeeze-append buffer token),
          length-append (squeeze buffer) (squeeze token),
          length-squeeze token,
        ) in
        rw (chunk_loop-cut unicode config buffer token tokens x) (
          cut-cases unicode config Bounded (strip grown) _ _
            (λ short. chunk_loop-Bounded grown tokens x most a (short_enough grown most short))
            (λ full test.
              let (sizes, long) = chunk_loop-Bounded [] tokens x most a (omega arith) in
              ((size, sizes), (inl (flushed (strip grown) test), long))))

  -- When the upper limit is not 0, no chunk has more visible characters than the limit and the
  -- longest token have together, less one, whether the stream ends or breaks off; and every
  -- chunk but the last has as many characters as the smaller of the two limits.
  pub chunk_stream-Bounded :
      {X : Type 0} (tokens : List Text) (x : Option X) (longest : ℕ)
      → 0 < config.max_chunk_chars
      → All (λ t. length t ≤ longest) tokens
      → Bounded longest (chunk_stream unicode config (tokens, x))
  unfolding chunk_stream squeeze
  chunk_stream-Bounded tokens x longest most a =
      chunk_loop-Bounded longest [] tokens x most a (omega arith)
