-- ===== src/Base/Texts/Laws.antt =====
-- Laws of the text operations.
use Prim.Native.Nat.{ℕ}
use mathlib.Core.Path.{◌≡◌, refl}
use mathlib.Core.Logic.{◌≢◌, ◌↔◌, inl, inr}
use mathlib.Core.Bool.{true}
use mathlib.Core.List.{List, [], ◌∷◌}
use native.Mathlib.Omega.{arith}
use bibi_core.Base.Tests.{◌==◌, Bool-cases}
use bibi_core.Base.Lists.{All}
use bibi_core.Base.Texts.{Text, text_eq, split_on, push_word, last_or}

text_eq_sound : (s t : Text) → text_eq s t ≡ true → s ≡ t
unfolding text_eq
text_eq_sound [] [] h = refl
text_eq_sound [] (d ∷ t) h = cc
text_eq_sound (c ∷ s) [] h = cc
text_eq_sound (c ∷ s) (d ∷ t) h = ground (arith, text_eq_sound s t)

text_eq_self : (s : Text) → text_eq s s ≡ true
unfolding text_eq
text_eq_self [] = refl
text_eq_self (c ∷ s) = ground (arith, text_eq_self s)

pub text_eq_iff : (s t : Text) → (text_eq s t ≡ true) ↔ (s ≡ t)
text_eq_iff s t = (text_eq_sound s t, λ h. rw h (text_eq_self t))

-- No character is the separator.
abbrev pub Avoids : ℕ → Text → Type 0
Avoids sep = All (λ c. c ≢ sep)

push_word-Avoids :
    (sep c : ℕ) (ws : List Text) → c ≢ sep → All (Avoids sep) ws → All (Avoids sep) (push_word c ws)
unfolding push_word
push_word-Avoids sep c [] ne h = ((ne, tt), tt)
push_word-Avoids sep c (w ∷ ws) ne h = ((ne, h.0), h.1)

pub split_on-Avoids : (sep : ℕ) (s : Text) → All (Avoids sep) (split_on sep s)
unfolding split_on push_word
split_on-Avoids sep [] = (tt, tt)
split_on-Avoids sep (c ∷ s) = elim (Bool-cases (c == sep)) [
  | inl hit ↦ rw hit (tt, split_on-Avoids sep s)
  | inr miss ↦
      rw miss (push_word-Avoids sep c (split_on sep s) (ground arith) (split_on-Avoids sep s))
]

pub split_on_none : (sep : ℕ) (s : Text) → Avoids sep s → split_on sep s ≡ s ∷ []
unfolding split_on push_word
split_on_none sep [] h = refl
split_on_none sep (c ∷ s) h = ground (arith, split_on_none sep s h.1)

pub last_or-All {ℓ κ} :
    {A : Type ℓ} (P : A → Type κ) (a : A) (xs : List A) → P a → All P xs → P (last_or a xs)
unfolding last_or
last_or-All P a [] p h = p
last_or-All P a (x ∷ xs) p h = last_or-All P x xs h.0 h.1
