-- ===== src/Llm/Ollama/Checks/Tests.antt =====
-- Two checks that overlap: both ask at time 5, Ollama answers the first at 8, and a third check at 20 is
-- skipped.
use bibi_core.Base.{
  ℕ, ◌+◌, ◌≤◌, ◌<◌, ◌≡◌, ◌⊎◌, refl, true, ℕ_discrete, arith, [], ◌∷◌, codes, text_eq, split_on,
}
use bibi_core.Llm.Ollama.{Listing, listed, is_fresh, check_listing, matches}
use bibi_core.Llm.Ollama.Checks.{
  idle, asking, Checking, update, answer, begin, tick, skipped, asked, answered, Reach, here, next,
}
use bibi_core.Llm.Ollama.Checks.Laws.{passing_vouched}

abbrev models : Listing
models = listed (codes "llama3:latest" ∷ [])

abbrev IsEight : ℕ → Type 0
IsEight t = t ≡ 8

abbrev both_asked : Checking
both_asked = record (begin (codes "llama3") 30 5) {
  phase = update (update (λ _. idle) 0 (asking 5)) 1 (asking 5);
}

abbrev answered_once : Checking
answered_once = answer (record both_asked { clock = 8 }) 0 5 models

abbrev later : Checking
later = record answered_once { clock = 20 }

later-Reach : Reach IsEight (codes "llama3") 30 5 later
unfolding is_fresh ℕ_discrete
later-Reach =
    next
      (next (next (next (next here (asked 0 refl refl)) (asked 1 refl refl)) (tick 8 (omega arith)))
        (answered 0 5 models refl (λ found. refl)))
      (tick 20 (omega arith))

later_fresh : is_fresh later.engine 20 ≡ true
unfolding is_fresh check_listing matches text_eq split_on
later_fresh = refl

passing_vouched_example : IsEight later.clock ⊎ ((u : ℕ) × IsEight u × (u ≤ 20) × (20 < u + 30))
unfolding ℕ_discrete
passing_vouched_example = passing_vouched IsEight later-Reach (skipped 2 refl later_fresh) tt
