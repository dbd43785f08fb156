-- ===== src/Llm/Engines/Laws.antt =====
-- What a chat with the mock says.
use bibi_core.Base.{
  ℕ, ◌≡◌, ◌≢◌, refl, ap, ◌∙◌, List, [], ◌∷◌, ◌++◌, ◌==◌, map, arith, Text, codes, append-nil, strip,
  split_on, push_word, is_space, Bool-cases, inl, inr,
}
use bibi_core.Llm.Models.{ChatMessage}
use bibi_core.Llm.Ollama.{mock_stream_response}
use bibi_core.Llm.Chunker.{Unicode, Chunking}
use bibi_core.Llm.Chunker.Strip.{squeeze, squeeze-append}
use bibi_core.Llm.Chunker.Laws.{concat}
use bibi_core.Llm.Chat.{chunk, done, success, chat}
use bibi_core.Llm.Chat.Laws.{chat_normal}
use bibi_core.Llm.Engines.{mock_engine}

abbrev spaced : Text → Text
spaced w = w ++ codes " "

cons_some : {w : Text} {ws : List Text} → w ∷ ws ≢ []
cons_some h = cc

push_word_some : (c : ℕ) (ws : List Text) → push_word c ws ≢ []
unfolding push_word
push_word_some c [] h = cons_some h
push_word_some c (w ∷ ws) h = cons_some h

split_on_some : (sep : ℕ) (s : Text) → split_on sep s ≢ []
unfolding split_on push_word
split_on_some sep [] h = cc
split_on_some sep (c ∷ s) h = elim (Bool-cases (c == sep)) [
  | inl hit ↦ cons_some (rw (hit, split_on) at h)
  | inr miss ↦ push_word_some c (split_on sep s) (rw (miss, split_on) at h)
]

spaced-push_word :
    (c : ℕ) (ws : List Text)
    → ws ≢ []
    → concat (map spaced (push_word c ws)) ≡ c ∷ concat (map spaced ws)
unfolding push_word concat
spaced-push_word c [] h = absurd (h refl)
spaced-push_word c (w ∷ ws) h = refl

concat-spaced : (s : Text) → concat (map spaced (split_on b' ' s)) ≡ s ++ codes " "
unfolding split_on concat
concat-spaced [] = refl
concat-spaced (c ∷ s) = elim (Bool-cases (c == b' ')) [
  | inl space ↦
      let here : c ≡ b' ' = ground (arith, space) in
      rw (here, split_on) (ap (λ t. b' ' ∷ t) (concat-spaced s))
  | inr other ↦
      rw (other, split_on)
        (spaced-push_word c (split_on b' ' s) (split_on_some b' ' s)
          ∙ ap (λ t. c ∷ t) (concat-spaced s))
]

-- For a prompt that is not blank, /chat with the mock answers with all that is visible of "You said: "
-- and the prompt.
pub mock_echo :
    (unicode : Unicode) (config : Chunking) (prompt : Text) (history : List ChatMessage)
    → strip prompt ≢ []
    → (cs : List Text) × (chat unicode config mock_engine prompt history
        ≡ success (map chunk cs ++ done ∷ []))
      × (squeeze (concat cs) ≡ squeeze (codes "You said: " ++ prompt))
unfolding mock_engine mock_stream_response squeeze is_space
mock_echo unicode config prompt history text =
    let (cs, same, visible) =
      chat_normal unicode config mock_engine prompt history refl text refl in
    let whole : squeeze (concat (map spaced (split_on b' ' (codes "You said: " ++ prompt))))
        ≡ squeeze (codes "You said: " ++ prompt) =
      ap squeeze (concat-spaced (codes "You said: " ++ prompt))
      ∙ squeeze-append (codes "You said: " ++ prompt) (codes " ")
      ∙ append-nil (squeeze (codes "You said: " ++ prompt)) in
    (cs, same, visible ∙ whole)
