-- ===== src/Tts/Piper/Laws.antt =====
-- Listed voices, and what is read aloud.
use bibi_core.Base.{
  ◌≡◌, refl, sym, subst, inl, inr, true, List, [], ◌∷◌, ◌++◌, arith, Text, codes, Bool-cases,
  Option-cases,
}
use bibi_core.Files.{FilePath}
use bibi_core.Catalogue.{Entry, is_file, exists_in, drop_suffix, onnx_names, piper_available}
use bibi_core.Catalogue.Laws.{IsMember, HasFiles, is_file_here, is_file_there}
use bibi_core.Tts.Models.{Try}
use bibi_core.Tts.Piper.{resolve_path, load_voice, load_engine}

is_file-exists : (es : List Entry) (name : Text) → is_file es name ≡ true → exists_in es name ≡ true
unfolding is_file exists_in
is_file-exists [] name h = h
is_file-exists (e ∷ es) name h = ground (arith, is_file-exists es name)

-- A listed name is a file among the entries looked at, and its configuration is in the directory.
onnx_names_lem :
    (directory es : List Entry) (name : Text)
    → HasFiles es
    → IsMember name (onnx_names directory es)
    → (is_file es name ≡ true) × (exists_in directory (name ++ codes ".json") ≡ true)
unfolding onnx_names
onnx_names_lem directory [] name files h = absurd h
onnx_names_lem directory (e ∷ es) name files h =
    let later : IsMember name (onnx_names directory es)
        → (is_file (e ∷ es) name ≡ true) × (exists_in directory (name ++ codes ".json") ≡ true) =
      λ old.
        let (file, config) = onnx_names_lem directory es name files.1 old in
        (is_file_there e es name file, config) in
    elim (Option-cases (drop_suffix (codes ".onnx") e.name)) [
      | inl no_onnx ↦ later (rw (no_onnx, onnx_names) at h)
      | inr (s, found) ↦ elim (Bool-cases (exists_in directory (e.name ++ codes ".json"))) [
        | inr missing ↦ later (rw missing at (rw (found, onnx_names) at h))
        | inl there ↦ elim (rw there at (rw (found, onnx_names) at h)) [
          | inl same ↦ (
            subst (λ t. is_file (e ∷ es) t ≡ true) (sym same) (is_file_here e es files.0),
            subst (λ t. exists_in directory (t ++ codes ".json") ≡ true) (sym same) there,
          )
          | inr old ↦ later old
        ]
      ]
    ]

pub piper_available-load_engine :
    {V : Type 0} (load : Text → Try V) (directory : FilePath) (entries : List Entry) (name : Text)
    → HasFiles entries
    → IsMember name (piper_available entries)
    → load_engine load directory entries name ≡ load name
unfolding piper_available load_engine resolve_path load_voice
piper_available-load_engine load directory entries name files h =
    let (file, config) = onnx_names_lem entries entries name files h in
    let there = is_file-exists entries name file in rw (file, config) (rw there refl)
