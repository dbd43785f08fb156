-- ===== src/Stt/Config/Laws.antt =====
-- Which files the service starts from.
use bibi_core.Base.{
  ◌≡◌, refl, sym, ◌↔◌, List, if◌then◌else◌, Text, codes, ok, bind_returns, ok_injective,
}
use bibi_core.Files.{FilePath, starts_with, to_path, join}
use bibi_core.Settings.{
  Value, text, number, decimal, texts, path, other, Toml, section_of, check_names, field,
}
use bibi_core.Settings.Laws.{
  IsKnown, IsChosen, check_names_iff, field-IsChosen, IsChosen_unique, IsServer, server_of_iff,
  IsEngine, engine_of_iff,
}
use bibi_core.Stt.Config.{
  ModelsConfig, Config, anchored, models_fields, models_config, server_config, engine_config,
  from_toml,
}

module _ {O : Type 0} (base : FilePath) (upper : Text → Text) where
  -- The directory is a text, and what starts with "./" is taken from `base`.
  pub record IsModels (arguments : List (Text × Value O)) (c : ModelsConfig O) : Type 0 where
    pub known : IsKnown models_fields arguments
    pub directory :
        (t : Text) × IsChosen arguments (codes "directory") (text (codes "./models")) (text t)
        × (c.directory ≡ (if starts_with (codes "./") t then join base (to_path t) else to_path t))
    pub default : IsChosen arguments (codes "default") (text (codes "ggml-base")) c.default
    pub max_loaded : IsChosen arguments (codes "max_loaded") (number 4) c.max_loaded

  -- The configuration that the tables of a file describe.
  pub record IsConfig (toml : Toml O) (c : Config O) : Type 0 where
    pub models :
        (a : List (Text × Value O)) × (section_of toml (codes "models") ≡ ok a)
        × IsModels a c.models
    pub server :
        (a : List (Text × Value O)) × (section_of toml (codes "server") ≡ ok a)
        × IsServer upper 5001 50051 a c.server
    pub engine :
        (a : List (Text × Value O)) × (section_of toml (codes "engine") ≡ ok a)
        × IsEngine (codes "whispercpp") a c.engine

  anchored_inv :
      (v : Value O) (p : FilePath)
      → anchored base v ≡ ok p
      → (t : Text) × (v ≡ text t)
        × (p ≡ (if starts_with (codes "./") t then join base (to_path t) else to_path t))
  unfolding anchored
  anchored_inv (text t) p h = (t, refl, sym (ok_injective h))
  anchored_inv (number n) p h = cc
  anchored_inv (decimal t) p h = cc
  anchored_inv (texts ts) p h = cc
  anchored_inv (path q) p h = cc
  anchored_inv (other o) p h = cc

  models_config_iff :
      (arguments : List (Text × Value O)) (c : ModelsConfig O)
      → (models_config base upper arguments ≡ ok c) ↔ IsModels arguments c
  unfolding models_config anchored
  models_config_iff arguments c = (
    λ h.
        let (_, names, h1) = bind_returns (check_names models_fields arguments) _ h in
        let (p, found, h2) =
          bind_returns
            (anchored base (field arguments (codes "directory") (text (codes "./models")))) _ h1 in
        let (t, same, placed) = anchored_inv _ p found in
        rw (sym (ok_injective h2)) (record {
          known = (check_names_iff models_fields arguments).0 names;
          directory = (
            t,
            rw same at (field-IsChosen arguments (codes "directory") (text (codes "./models"))),
            placed,
          );
          default = field-IsChosen arguments (codes "default") (text (codes "ggml-base"));
          max_loaded = field-IsChosen arguments (codes "max_loaded") (number 4);
        }),
    λ v.
        let (t, chosen, placed) = v.directory in
        rw
          (
            (check_names_iff models_fields arguments).1 v.known,
            IsChosen_unique arguments (codes "directory") (text (codes "./models")) (text t) chosen,
            IsChosen_unique arguments (codes "default") (text (codes "ggml-base")) c.default
                v.default,
            IsChosen_unique arguments (codes "max_loaded") (number 4) c.max_loaded v.max_loaded,
            sym placed,
          )
          refl,
  )

  -- The speech-to-text service starts with a configuration exactly if the tables of the file
  -- describe it: every name in a table is a field, each value is the one given or the default
  -- of the field, the directory is a text and is taken from the directory of the service if it
  -- starts with "./", and the log level is a text, put in upper case.
  pub from_toml_iff :
      (toml : Toml O) (c : Config O) → (from_toml base upper toml ≡ ok c) ↔ IsConfig toml c
  unfolding from_toml server_config engine_config
  from_toml_iff toml c = (
    λ h.
        let (m, m_found, h1) = bind_returns (section_of toml (codes "models")) _ h in
        let (models, m_made, h2) = bind_returns (models_config base upper m) _ h1 in
        let (s, s_found, h3) = bind_returns (section_of toml (codes "server")) _ h2 in
        let (server, s_made, h4) = bind_returns (server_config base upper s) _ h3 in
        let (e, e_found, h5) = bind_returns (section_of toml (codes "engine")) _ h4 in
        let (engine, e_made, h6) = bind_returns (engine_config base upper e) _ h5 in
        rw (sym (ok_injective h6)) (record {
          models = (m, m_found, (models_config_iff m models).0 m_made);
          server = (s, s_found, (server_of_iff upper 5001 50051 s server).0 s_made);
          engine = (e, e_found, (engine_of_iff (codes "whispercpp") e engine).0 e_made);
        }),
    λ v.
        let (m, m_found, m_is) = v.models in
        let (s, s_found, s_is) = v.server in
        let (e, e_found, e_is) = v.engine in
        rw
          (
            m_found,
            (models_config_iff m c.models).1 m_is,
            s_found,
            (server_of_iff upper 5001 50051 s c.server).1 s_is,
            e_found,
            (engine_of_iff (codes "whispercpp") e c.engine).1 e_is,
          )
          refl,
  )
