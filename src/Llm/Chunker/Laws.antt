-- ===== src/Llm/Chunker/Laws.antt =====
-- What the chunks keep of the tokens, and where the stream is cut.
use bibi_core.Base.{
  ℕ, ◌≡◌, refl, sym, ap, ◌∙◌, ◌≢◌, ◌⊎◌, inl, inr, true, false, Option, none, some, List, [], ◌∷◌,
  ◌++◌, if◌then◌else◌, Text, strip, All, Bool-cases, append_assoc, append-nil,
}
use bibi_core.Llm.Chunker.{
  Unicode, Chunking, should_flush, yield_chunk, remainder, chunk_loop, chunk_stream,
}
use bibi_core.Llm.Chunker.Strip.{squeeze, squeeze-append, squeeze-strip, strip_idem}

unfoldable pub concat : List Text → Text
concat [] = []
concat (t ∷ ts) = t ++ concat ts

-- A chunk is not empty, and `strip` changes nothing in it.
abbrev pub IsChunk : Text → Type 0
IsChunk c = (c ≢ []) × (strip c ≡ c)

pub Text-cases : (s : Text) → (s ≡ []) ⊎ ((c : ℕ) × (r : Text) × (s ≡ c ∷ r))
Text-cases [] = inl refl
Text-cases (c ∷ r) = inr (c, r, refl)

module _ (unicode : Unicode) (config : Chunking) where
  -- Every chunk but the last was cut by the code's test.
  abbrev pub AllCut : List Text → Type 0
  AllCut [] = Unit
  AllCut (c ∷ cs) = ((should_flush unicode config c ≡ true) ⊎ (cs ≡ [])) × AllCut cs

  remainder_lem :
      (s : Text)
      → strip s ≡ s
      → All IsChunk (remainder s) × AllCut (remainder s) × (concat (remainder s) ≡ s)
  unfolding remainder concat
  remainder_lem [] h = (tt, tt, refl)
  remainder_lem (c ∷ s) h = ((((λ e. cc), h), tt), (inr refl, tt), append-nil (c ∷ s))

module _ (unicode : Unicode) (config : Chunking) {X : Type 0} where
  -- One round of the loop, by what is in the buffer after the token.
  pub cut : Text → List Text × Option X → List Text × Option X → List Text × Option X
  cut [] cleared carried = carried
  cut (c ∷ s) cleared carried =
      if should_flush unicode config (c ∷ s) then yield_chunk (c ∷ s) cleared else carried

  pub chunk_loop-cut :
      (buffer token : Text) (tokens : List Text) (x : Option X)
      → chunk_loop unicode config buffer (token ∷ tokens) x
        ≡ cut
            (strip (buffer ++ token))
            (chunk_loop unicode config [] tokens x)
            (chunk_loop unicode config (buffer ++ token) tokens x)
  unfolding chunk_loop cut
  chunk_loop-cut buffer token tokens x = elim (Text-cases (strip (buffer ++ token))) [
    | inl blank ↦ rw (blank, chunk_loop, cut)
    | inr (c, r, e) ↦ rw (e, chunk_loop, cut)
  ]

  pub cut-cases :
      (P : List Text × Option X → Type 0) (s : Text) (cleared carried : List Text × Option X)
      → ((s ≡ []) ⊎ (should_flush unicode config s ≡ false) → P carried)
      → (s ≢ [] → should_flush unicode config s ≡ true → P (yield_chunk s cleared))
      → P (cut s cleared carried)
  unfolding cut
  cut-cases P [] cleared carried f g = f (inl refl)
  cut-cases P (c ∷ s) cleared carried f g =
      elim (Bool-cases (should_flush unicode config (c ∷ s))) [
        | inl full ↦ rw full (g (λ h. cc) full)
        | inr short ↦ rw short (f (inr short))
      ]

  -- What the loop makes of a buffer and the tokens that follow.
  pub record Chunks (buffer : Text) (tokens : List Text) (x : Option X) (out : List Text × Option X)
      : Type 0 where
    pub lost : Text
    pub kept : squeeze (concat out.0) ++ lost ≡ squeeze (buffer ++ concat tokens)
    pub nothing_lost : x ≡ none → lost ≡ []
    pub ended : out.1 ≡ x
    pub chunks : All IsChunk out.0
    pub cuts : AllCut unicode config out.0

  Chunks-carried :
      (buffer token : Text) (tokens : List Text) (x : Option X) (out : List Text × Option X)
      → Chunks (buffer ++ token) tokens x out
      → Chunks buffer (token ∷ tokens) x out
  unfolding concat
  Chunks-carried buffer token tokens x out c = record {
    lost = c.lost;
    kept = c.kept ∙ ap squeeze (append_assoc buffer token (concat tokens));
    nothing_lost = c.nothing_lost;
    ended = c.ended;
    chunks = c.chunks;
    cuts = c.cuts;
  }

  Chunks-cleared :
      (buffer token : Text) (tokens : List Text) (x : Option X) (out : List Text × Option X)
      → strip (buffer ++ token) ≢ []
      → should_flush unicode config (strip (buffer ++ token)) ≡ true
      → Chunks [] tokens x out
      → Chunks buffer (token ∷ tokens) x (yield_chunk (strip (buffer ++ token)) out)
  unfolding concat
  Chunks-cleared buffer token tokens x (cs, y) full test c =
      let s = strip (buffer ++ token) in
      record {
        lost = c.lost;
        kept =
            rw (squeeze-append s (concat cs), squeeze-strip (buffer ++ token))
              (append_assoc (squeeze (buffer ++ token)) (squeeze (concat cs)) c.lost
                ∙ rw c.kept (
                    sym (squeeze-append (buffer ++ token) (concat tokens))
                    ∙ ap squeeze (append_assoc buffer token (concat tokens))));
        nothing_lost = c.nothing_lost;
        ended = c.ended;
        chunks = ((full, strip_idem (buffer ++ token)), c.chunks);
        cuts = (inl test, c.cuts);
      }

  chunk_loop-Chunks :
      (buffer : Text) (tokens : List Text) (x : Option X)
      → Chunks buffer tokens x (chunk_loop unicode config buffer tokens x)
  unfolding chunk_loop concat squeeze
  chunk_loop-Chunks buffer [] none =
      let (chunks, cuts, all) = remainder_lem unicode config (strip buffer) (strip_idem buffer) in
      record {
        lost = [];
        kept =
            append-nil _
            ∙ ap squeeze all
            ∙ squeeze-strip buffer
            ∙ ap squeeze (sym (append-nil buffer));
        nothing_lost = λ _. refl;
        ended = refl;
        chunks = chunks;
        cuts = cuts;
      }
  chunk_loop-Chunks buffer [] (some y) = record {
    lost = squeeze (buffer ++ []);
    kept = refl;
    nothing_lost = λ h. cc;
    ended = refl;
    chunks = tt;
    cuts = tt;
  }
  chunk_loop-Chunks buffer (token ∷ tokens) x =
      let cleared = chunk_loop-Chunks [] tokens x in
      let carried = chunk_loop-Chunks (buffer ++ token) tokens x in
      rw (chunk_loop-cut buffer token tokens x) (
        cut-cases (Chunks buffer (token ∷ tokens) x) (strip (buffer ++ token)) _ _
          (λ _. Chunks-carried buffer token tokens x _ carried)
          (λ full test. Chunks-cleared buffer token tokens x _ full test cleared))

  -- However the model cuts its answer into tokens, chunk_stream loses, doubles and moves no
  -- visible character when the stream ends normally, loses at most an end when it is broken
  -- off, passes the exception on, yields no chunk that is empty or has white space at its ends,
  -- and cuts every chunk but the last by the boundary or the length test.
  pub chunk_stream-Chunks :
      (tokens : List Text) (x : Option X)
      → Chunks [] tokens x (chunk_stream unicode config (tokens, x))
  unfolding chunk_stream
  chunk_stream-Chunks tokens x = chunk_loop-Chunks [] tokens x
