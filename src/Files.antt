-- ===== src/Files.antt =====
-- Paths of pathlib (POSIX), as the configurations and the engines use them: `Path(s)`, `a / b` and
-- `str`. The root `//` of two slashes is read as `/`.
use bibi_core.Base.{
  Bool, true, false, List, [], ◌∷◌, ◌++◌, ◌==◌, if◌then◌else◌, Text, codes, split_on,
}
use bibi_core.Paths.{parts}

pub record FilePath : Type 0 where
  pub absolute : Bool
  pub parts : List Text

unfoldable pub starts_with : Text → Text → Bool
starts_with [] s = true
starts_with (d ∷ f) [] = false
starts_with (d ∷ f) (c ∷ s) = let rest = starts_with f s in if c == d then rest else false

-- `Path(s)`
unfoldable pub to_path : Text → FilePath
unfolding starts_with split_on
to_path s = record { absolute = starts_with (codes "/") s; parts = parts (split_on b'/' s) }

-- `a / b`
unfoldable pub join : FilePath → FilePath → FilePath
join a b = if b.absolute then b else record { absolute = a.absolute; parts = a.parts ++ b.parts }

-- `"/".join(parts)`
unfoldable pub slashed : List Text → Text
slashed [] = []
slashed (w ∷ []) = w
slashed (w ∷ v ∷ ws) = w ++ b'/' ∷ slashed (v ∷ ws)

abbrev rooted : Bool → List Text → Text
rooted true ws = b'/' ∷ slashed ws
rooted false [] = codes "."
rooted false (w ∷ ws) = slashed (w ∷ ws)

-- `str(path)`
unfoldable pub path_str : FilePath → Text
unfolding slashed
path_str p = rooted p.absolute p.parts
