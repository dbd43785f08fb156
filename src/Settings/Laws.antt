-- ===== src/Settings/Laws.antt =====
-- When the dataclasses take a table, and what they make of it.
use bibi_core.Base.{
  ℕ, ◌≡◌, refl, sym, ap, ◌∙◌, ◌⊎◌, inl, inr, ◌↔◌, true, none, some, List, [], ◌∷◌, arith, Text,
  Text-discrete, codes, mem_text, lookup, All, ok, bind_returns, ok_injective, Bool-cases,
  Option-cases,
}
use bibi_core.Settings.{
  Value, text, number, decimal, texts, path, other, check_names, field, upper_level, ServerConfig,
  EngineConfig, server_fields, engine_fields, server_of, engine_of,
}

module _ {O : Type 0} where
  -- Every argument is a field.
  abbrev pub IsKnown : List Text → List (Text × Value O) → Type 0
  IsKnown names = All (λ e. mem_text e.0 names ≡ true)

  -- The value of a field: the argument of its name, or the default where there is none.
  abbrev pub IsChosen : List (Text × Value O) → Text → Value O → Value O → Type 0
  IsChosen arguments name default v =
      (lookup Text-discrete name arguments ≡ some v)
      ⊎ ((lookup Text-discrete name arguments ≡ none) × (v ≡ default))

  pub check_names_iff :
      (names : List Text) (arguments : List (Text × Value O))
      → (check_names names arguments ≡ ok tt) ↔ IsKnown names arguments
  unfolding check_names
  check_names_iff names [] = (λ _. tt, λ _. refl)
  check_names_iff names ((name, v) ∷ arguments) = (
    λ h. elim (Bool-cases (mem_text name names)) [
      | inl known ↦ (known, (check_names_iff names arguments).0 (rw known at h))
      | inr unknown ↦ absurd (ground arith)
    ],
    λ h. rw h.0 ((check_names_iff names arguments).1 h.1),
  )

  pub field-IsChosen :
      (arguments : List (Text × Value O)) (name : Text) (default : Value O)
      → IsChosen arguments name default (field arguments name default)
  unfolding field
  field-IsChosen arguments name default =
      elim (Option-cases (lookup Text-discrete name arguments)) [
        | inl missing ↦ inr (missing, rw (missing, field))
        | inr (v, given) ↦ inl (given ∙ ap some (sym (rw (given, field))))
      ]

  pub IsChosen_unique :
      (arguments : List (Text × Value O)) (name : Text) (default v : Value O)
      → IsChosen arguments name default v
      → field arguments name default ≡ v
  unfolding field
  IsChosen_unique arguments name default v (inl given) = rw (given, field)
  IsChosen_unique arguments name default v (inr (missing, same)) = rw (missing, field) (sym same)

  pub upper_level_inv :
      (upper : Text → Text) (v : Value O) (level : Text)
      → upper_level upper v ≡ ok level
      → (t : Text) × (v ≡ text t) × (level ≡ upper t)
  unfolding upper_level
  upper_level_inv upper (text t) level h = (t, refl, cc)
  upper_level_inv upper (number n) level h = cc
  upper_level_inv upper (decimal t) level h = cc
  upper_level_inv upper (texts ts) level h = cc
  upper_level_inv upper (path p) level h = cc
  upper_level_inv upper (other o) level h = cc

  -- What `ServerConfig` makes of its arguments.
  pub record IsServer (upper : Text → Text) (port grpc_port : ℕ) (arguments : List (Text × Value O))
      (c : ServerConfig O) : Type 0 where
    pub known : IsKnown server_fields arguments
    pub host : IsChosen arguments (codes "host") (text (codes "0.0.0.0")) c.host
    pub port_chosen : IsChosen arguments (codes "port") (number port) c.port
    pub grpc_port_chosen : IsChosen arguments (codes "grpc_port") (number grpc_port) c.grpc_port
    pub level :
        (t : Text) × IsChosen arguments (codes "log_level") (text (codes "INFO")) (text t)
        × (c.log_level ≡ upper t)

  pub server_of_iff :
      (upper : Text → Text) (port grpc_port : ℕ) (arguments : List (Text × Value O))
      (c : ServerConfig O)
      → (server_of upper port grpc_port arguments ≡ ok c)
        ↔ IsServer upper port grpc_port arguments c
  unfolding server_of upper_level
  server_of_iff upper port grpc_port arguments c = (
    λ h.
        let (_, names, h1) = bind_returns (check_names server_fields arguments) _ h in
        let (level, found, h2) =
          bind_returns
            (upper_level upper (field arguments (codes "log_level") (text (codes "INFO")))) _ h1 in
        let (t, same, raised) = upper_level_inv upper _ level found in
        rw (sym (ok_injective h2)) (record {
          known = (check_names_iff server_fields arguments).0 names;
          host = field-IsChosen arguments (codes "host") (text (codes "0.0.0.0"));
          port_chosen = field-IsChosen arguments (codes "port") (number port);
          grpc_port_chosen = field-IsChosen arguments (codes "grpc_port") (number grpc_port);
          level = (
            t,
            rw same at (field-IsChosen arguments (codes "log_level") (text (codes "INFO"))),
            raised,
          );
        }),
    λ v.
        let (t, chosen, raised) = v.level in
        rw
          (
            (check_names_iff server_fields arguments).1 v.known,
            IsChosen_unique arguments (codes "log_level") (text (codes "INFO")) (text t) chosen,
            IsChosen_unique arguments (codes "host") (text (codes "0.0.0.0")) c.host v.host,
            IsChosen_unique arguments (codes "port") (number port) c.port v.port_chosen,
            IsChosen_unique arguments (codes "grpc_port") (number grpc_port) c.grpc_port
                v.grpc_port_chosen,
            sym raised,
          )
          refl,
  )

  pub record IsEngine (provider : Text) (arguments : List (Text × Value O)) (c : EngineConfig O)
      : Type 0 where
    pub known : IsKnown engine_fields arguments
    pub chosen : IsChosen arguments (codes "provider") (text provider) c.provider

  pub engine_of_iff :
      (provider : Text) (arguments : List (Text × Value O)) (c : EngineConfig O)
      → (engine_of provider arguments ≡ ok c) ↔ IsEngine provider arguments c
  unfolding engine_of
  engine_of_iff provider arguments c = (
    λ h.
        let (_, names, h1) = bind_returns (check_names engine_fields arguments) _ h in
        rw (sym (ok_injective h1)) (record {
          known = (check_names_iff engine_fields arguments).0 names;
          chosen = field-IsChosen arguments (codes "provider") (text provider);
        }),
    λ v.
        rw
          (
            (check_names_iff engine_fields arguments).1 v.known,
            IsChosen_unique arguments (codes "provider") (text provider) c.provider v.chosen,
          )
          refl,
  )
