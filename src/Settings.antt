-- ===== src/Settings.antt =====
-- What the config.py of the three services share: the tables of a TOML file become keyword arguments
-- of dataclasses, which check the names and not the types. `tomllib.loads` is a parameter of the
-- services; any other TOML value than a text, a natural number or a list of texts is of an abstract
-- type.
pub mod Laws
use bibi_core.Base.{
  ℕ, Bool, true, false, Option, none, some, List, [], ◌∷◌, ◌++◌, if◌then◌else◌, Text, Text-discrete,
  codes, mem_text, lookup, Result, ok, raise, ◌>>=◌, map,
}
use bibi_core.Files.{FilePath}

pub data Value (O : Type 0) : Type 0 where
  text : Text → Value O
  number : ℕ → Value O
  -- a float that the source writes, by its literal
  decimal : Text → Value O
  texts : List Text → Value O
  path : FilePath → Value O
  other : O → Value O

-- A value of the file's top level.
pub data Section (O : Type 0) : Type 0 where
  table : List (Text × Value O) → Section O
  scalar : Value O → Section O

abbrev pub Toml : Type 0 → Type 0
Toml O = List (Text × Section O)

pub data ConfigError : Type 0 where
  type_error : Text → ConfigError
  attribute_error : Text → ConfigError
  decode_error : Text → ConfigError

abbrev pub Try : Type 0 → Type 0
Try A = Result ConfigError A

-- `**data.get(name, {})`
unfoldable pub section_of : {O : Type 0} → Toml O → Text → Try (List (Text × Value O))
section_of toml name = elim (lookup Text-discrete name toml) [
  | none ↦ ok []
  | some (table arguments) ↦ ok arguments
  | some (scalar v) ↦ raise (type_error name)
]

-- A dataclass takes no argument that is not one of its fields.
unfoldable pub check_names : {O : Type 0} → List Text → List (Text × Value O) → Try (Unit {0})
unfolding mem_text
check_names names [] = ok tt
check_names names ((name, v) ∷ arguments) =
    let rest = check_names names arguments in
    if mem_text name names then rest else raise (type_error name)

-- The value of a field: the argument, or the default.
unfoldable pub field : {O : Type 0} → List (Text × Value O) → Text → Value O → Value O
unfolding lookup
field arguments name default = elim (lookup Text-discrete name arguments) [
  | none ↦ default
  | some v ↦ v
]

-- `self.log_level.upper()`
unfoldable pub upper_level : {O : Type 0} → (Text → Text) → Value O → Try Text
upper_level upper (text t) = ok (upper t)
upper_level upper (number n) = raise (attribute_error (codes "upper"))
upper_level upper (decimal t) = raise (attribute_error (codes "upper"))
upper_level upper (texts ts) = raise (attribute_error (codes "upper"))
upper_level upper (path p) = raise (attribute_error (codes "upper"))
upper_level upper (other o) = raise (attribute_error (codes "upper"))

pub record ServerConfig (O : Type 0) : Type 0 where
  pub host : Value O
  pub port : Value O
  pub grpc_port : Value O
  pub log_level : Text

pub record EngineConfig (O : Type 0) : Type 0 where
  pub provider : Value O

abbrev pub server_fields : List Text
server_fields = codes "host" ∷ codes "port" ∷ codes "grpc_port" ∷ codes "log_level" ∷ []

abbrev pub engine_fields : List Text
engine_fields = codes "provider" ∷ []

-- `ServerConfig(**arguments)`, for the default ports of a service.
unfoldable pub server_of :
    {O : Type 0} → (Text → Text) → ℕ → ℕ → List (Text × Value O) → Try (ServerConfig O)
unfolding check_names field upper_level
server_of upper port grpc_port arguments = do
  _ ← check_names server_fields arguments
  level ← upper_level upper (field arguments (codes "log_level") (text (codes "INFO")))
  ok (record {
    host = field arguments (codes "host") (text (codes "0.0.0.0"));
    port = field arguments (codes "port") (number port);
    grpc_port = field arguments (codes "grpc_port") (number grpc_port);
    log_level = level;
  })

-- `EngineConfig(**arguments)`, for the default provider of a service.
unfoldable pub engine_of : {O : Type 0} → Text → List (Text × Value O) → Try (EngineConfig O)
unfolding check_names field
engine_of provider arguments = do
  _ ← check_names engine_fields arguments
  ok (record { provider = field arguments (codes "provider") (text provider) })

-- `tomllib.loads(path.read_text()) if path.exists() else {}`
unfoldable pub read_toml : {O : Type 0} → (Text → Try (Toml O)) → Option Text → Try (Toml O)
read_toml loads none = ok []
read_toml loads (some content) = loads content
