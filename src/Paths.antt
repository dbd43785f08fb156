-- ===== src/Paths.antt =====
-- `Path(name).name` of pathlib (POSIX), by which both engine managers refuse names that are not
-- plain file names (stt/engine_manager.py, tts/engine_manager.py).
use bibi_core.Base.{
  ◌≡◌, refl, ◌≢◌, ◌↔◌, Bool, true, not, ◌||◌, List, [], ◌∷◌, arith, Text, codes, text_eq, split_on,
  last_or, All, if◌then◌else◌, subst,
}
use bibi_core.Base.Texts.Laws.{text_eq_iff, Avoids, split_on-Avoids, split_on_none, last_or-All}

-- Pathlib drops empty components and ".".
unfoldable pub is_part : Text → Bool
unfolding text_eq
is_part w = not (text_eq w [] || text_eq w (codes "."))

unfoldable pub parts : List Text → List Text
unfolding is_part
parts [] = []
parts (w ∷ ws) = if is_part w then w ∷ parts ws else parts ws

unfoldable pub path_name : Text → Text
unfolding parts split_on last_or
path_name s = last_or [] (parts (split_on b'/' s))

-- `Path(name).name == name`
unfoldable pub is_plain : Text → Bool
unfolding path_name text_eq
is_plain s = text_eq (path_name s) s

parts-All : (P : Text → Type 0) (ws : List Text) → All P ws → All P (parts ws)
unfolding parts
parts-All P [] h = tt
parts-All P (w ∷ ws) h = ground (arith, parts-All P ws h.1)

path_name-Avoids : (s : Text) → Avoids b'/' (path_name s)
unfolding path_name
path_name-Avoids s =
    last_or-All (Avoids b'/') [] _ tt
      (parts-All (Avoids b'/') (split_on b'/' s) (split_on-Avoids b'/' s))

path_name_simple : (s : Text) → Avoids b'/' s → s ≢ codes "." → path_name s ≡ s
unfolding path_name parts is_part last_or
path_name_simple s h ne =
    rw (split_on_none b'/' s h) (ground (arith, text_eq_iff s [], text_eq_iff s (codes ".")))

path_name_dot : path_name (codes ".") ≡ []
unfolding path_name
path_name_dot = refl

-- A name passes the test of the engine managers exactly when it has no slash and is not a
-- single point; ".." does pass.
pub is_plain_iff : (s : Text) → (is_plain s ≡ true) ↔ (Avoids b'/' s × (s ≢ codes "."))
unfolding is_plain
is_plain_iff s = (
  λ h.
      let same = (text_eq_iff (path_name s) s).0 h in
      (subst (Avoids b'/') same (path_name-Avoids s), λ e. cc (path_name_dot)),
  λ h. (text_eq_iff (path_name s) s).1 (path_name_simple s h.0 h.1),
)
