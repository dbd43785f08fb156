-- ===== src/Catalogue.antt =====
-- What a directory holds, and the models and voices that the engines find there
-- (stt/engines/whispercpp_engine.py, tts/engines/piper_engine.py). The directory is the list of its
-- entries.
pub mod Laws
mod Tests
use bibi_core.Base.{
  ℕ, Bool, true, false, ◌&&◌, ◌||◌, Option, none, some, List, [], ◌∷◌, ◌++◌, ◌==◌, ltb,
  if◌then◌else◌, Text, text_eq, codes,
}

pub record Entry : Type 0 where
  pub name : Text
  -- and no directory
  pub file : Bool

-- `(directory / name).is_file()` and `.exists()`
unfoldable pub is_file : List Entry → Text → Bool
unfolding text_eq
is_file [] name = false
is_file (e ∷ es) name = (text_eq e.name name && e.file) || is_file es name

unfoldable pub exists_in : List Entry → Text → Bool
unfolding text_eq
exists_in [] name = false
exists_in (e ∷ es) name = text_eq e.name name || exists_in es name

-- `a <= b`
unfoldable pub text_leb : Text → Text → Bool
text_leb [] t = true
text_leb (c ∷ s) [] = false
text_leb (c ∷ s) (d ∷ t) = ltb c d || (c == d && text_leb s t)

unfoldable pub insert_sorted : Text → List Text → List Text
unfolding text_leb
insert_sorted s [] = s ∷ []
insert_sorted s (t ∷ ts) =
    let later = insert_sorted s ts in if text_leb s t then s ∷ t ∷ ts else t ∷ later

-- `sorted(names)`
unfoldable pub sorted : List Text → List Text
unfolding insert_sorted
sorted [] = []
sorted (s ∷ ss) = insert_sorted s (sorted ss)

abbrev pub push_char : ℕ → Option Text → Option Text
push_char c none = none
push_char c (some s) = some (c ∷ s)

-- What stands before a suffix.
unfoldable pub drop_suffix : Text → Text → Option Text
unfolding text_eq
drop_suffix suffix [] = if text_eq [] suffix then some [] else none
drop_suffix suffix (c ∷ s) =
    let later = push_char c (drop_suffix suffix s) in
    if text_eq (c ∷ s) suffix then some [] else later

unfoldable pub all_points : Text → Bool
all_points [] = true
all_points (c ∷ s) = c == 46 && all_points s

-- `f.stem` of a name that ends in the suffix: Python 3.14 wants a character that is no point in a stem,
-- and else takes the whole name.
unfoldable pub stem_of : Text → Text → Text
unfolding all_points
stem_of suffix s = if all_points s then s ++ suffix else s

-- The stems of `directory.glob("*.bin")`
unfoldable pub bin_stems : List Entry → List Text
unfolding drop_suffix stem_of
bin_stems [] = []
bin_stems (e ∷ es) = elim (drop_suffix (codes ".bin") e.name) [
  | none ↦ bin_stems es
  | some s ↦ stem_of (codes ".bin") s ∷ bin_stems es
]

-- `WhisperCppEngine.list_available`
unfoldable pub whisper_available : List Entry → List Text
unfolding sorted bin_stems
whisper_available entries = sorted (bin_stems entries)

-- The loop of `PiperEngine.list_available`, over the entries that are left
unfoldable pub onnx_names : List Entry → List Entry → List Text
unfolding drop_suffix exists_in
onnx_names directory [] = []
onnx_names directory (e ∷ es) =
    let rest = onnx_names directory es in
    elim (drop_suffix (codes ".onnx") e.name) [
      | none ↦ rest
      | some _ ↦ if exists_in directory (e.name ++ codes ".json") then e.name ∷ rest else rest
    ]

-- `PiperEngine.list_available`
unfoldable pub piper_available : List Entry → List Text
unfolding onnx_names
piper_available directory = onnx_names directory directory
