-- ===== src/Tts/Config/Laws.antt =====
-- The directory of the voices.
use bibi_core.Base.{
  ◌≡◌, refl, sym, ◌∙◌, false, none, some, List, [], ◌∷◌, ◌++◌, Text, Text-discrete, codes, ok,
  bind_returns, ok_injective, lookup, split_on, text_eq, inl, inr,
}
use bibi_core.Paths.{parts, is_part}
use bibi_core.Files.{FilePath, starts_with, to_path, join, path_str, slashed}
use bibi_core.Settings.{Value, text, check_names, field}
use bibi_core.Settings.Laws.{IsChosen_unique}
use bibi_core.Tts.Config.{
  VoicesConfig, voices_fields, str_of, placed, default_directory, voices_config,
}

-- `./voices`, as a text and as a path
placed_text :
    (base : FilePath)
    → placed base (codes "./voices")
      ≡ record { absolute = base.absolute; parts = base.parts ++ codes "voices" ∷ [] }
unfolding placed starts_with to_path join split_on parts is_part text_eq
placed_text base = refl

placed_path :
    {O : Type 0} (base : FilePath) (shown : Value O → Text)
    → placed base (str_of shown default_directory)
      ≡ record { absolute = false; parts = codes "voices" ∷ [] }
unfolding placed str_of default_directory path_str slashed starts_with to_path split_on parts
    is_part text_eq
placed_path base shown = refl

module _ {O : Type 0} (base : FilePath) (upper : Text → Text) (shown : Value O → Text) where
  directory_of :
      (arguments : List (Text × Value O)) (c : VoicesConfig O)
      → voices_config base upper shown arguments ≡ ok c
      → c.directory
        ≡ placed base (str_of shown (field arguments (codes "directory") default_directory))
  unfolding voices_config
  directory_of arguments c h =
      let (_, names, h1) = bind_returns (check_names voices_fields arguments) _ h in
      rw (sym (ok_injective h1))

  -- When the voices table of tts/ has no directory, the voices are looked for in "voices" below
  -- the working directory, while a table that gives the default "./voices" in so many words
  -- puts them below the directory of the service.
  pub default_directory_loose :
      (arguments arguments' : List (Text × Value O)) (c c' : VoicesConfig O)
      → voices_config base upper shown arguments ≡ ok c
      → voices_config base upper shown arguments' ≡ ok c'
      → lookup Text-discrete (codes "directory") arguments ≡ none
      → lookup Text-discrete (codes "directory") arguments' ≡ some (text (codes "./voices"))
      → (c.directory ≡ record { absolute = false; parts = codes "voices" ∷ [] })
        × (c'.directory
            ≡ record { absolute = base.absolute; parts = base.parts ++ codes "voices" ∷ [] })
  unfolding str_of
  default_directory_loose arguments arguments' c c' h h' missing given = (
    directory_of arguments c h
        ∙ (rw
            (IsChosen_unique arguments (codes "directory") default_directory _
              (inr (missing, refl)))
            (placed_path base shown)),
    directory_of arguments' c' h'
        ∙ (rw (IsChosen_unique arguments' (codes "directory") default_directory _ (inl given))
            (placed_text base)),
  )
