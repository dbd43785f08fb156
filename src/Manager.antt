-- ===== src/Manager.antt =====
-- One request against an engine manager that no other request interrupts: `_get_or_load`,
-- `get_engine` and the `with` block of `acquire_engine`, composed of the sections of Cache.antt. The
-- methods of the two managers read the same; `not_found` is the exception that each raises for a
-- name that it refuses, `load` its `resolve_path` followed by the engine's constructor, which run
-- outside the lock, and `key_error` Python's KeyError.
pub mod Laws
pub mod Acquire
pub mod Runs
mod Tests
use bibi_core.Base.{
  Text, Text-discrete, Bool, true, false, Option, none, some, Result, ok, raise, if◌then◌else◌, [],
  List, ◌∷◌, keys,
}
use bibi_core.Paths.{is_plain}
use bibi_core.Cache.{Cache, find_loaded, insert_loaded, pin, release}

pub record Manager (E : Type 0) : Type 0 where
  pub default : Text
  pub cache : Cache Text E

-- `name or self.default`
unfoldable pub or_default : Option Text → Text → Text
or_default none default = default
or_default (some []) default = default
or_default (some (c ∷ s)) default = c ∷ s

unfoldable pub loaded_names : {E : Type 0} → Manager E → List Text
loaded_names m = keys m.cache.engines

module _ {X E : Type 0} (not_found : Text → X) (key_error : X) (load : Text → Result X E) where
  -- The second section, with the engine that `load` gave.
  unfoldable pub store : Manager E → Text → Result X E → Manager E × Result X E
  store m name (raise x) = (m, raise x)
  store m name (ok e) = elim (insert_loaded Text-discrete m.cache name e) [
    | none ↦ (m, raise key_error)
    | some (c, f) ↦ (record m { cache = c }, ok f)
  ]

  unfoldable pub get_or_load : Manager E → Text → Manager E × Result X E
  unfolding store
  get_or_load m name =
      if is_plain name
      then elim (find_loaded Text-discrete m.cache name) [
        | some (c, e) ↦ (record m { cache = c }, ok e)
        | none ↦ store m name (load name)
      ]
      else (m, raise (not_found name))

  unfoldable pub get_engine : Manager E → Option Text → Manager E × Result X E
  unfolding or_default get_or_load
  get_engine m name = get_or_load m (or_default name m.default)

  module _ {A : Type 0} (body : Manager E → E → Manager E × Result X A) where
    -- The `finally`, after the body returned or raised.
    unfoldable pub leave : Text → Manager E × Result X A → Manager E × Result X A
    leave name (m, result) = elim (release Text-discrete m.cache name) [
      | none ↦ (m, raise key_error)
      | some c ↦ (record m { cache = c }, result)
    ]

    unfoldable pub enter : Text → Manager E × Result X E → Manager E × Result X A
    unfolding leave
    enter name (m, raise x) = (m, raise x)
    enter name (m, ok e) = leave name (body (record m { cache = pin Text-discrete m.cache name }) e)

    -- `with manager.acquire_engine(name) as engine: body`
    unfoldable pub acquire_engine : Manager E → Option Text → Manager E × Result X A
    unfolding or_default get_or_load enter
    acquire_engine m name = let key = or_default name m.default in enter key (get_or_load m key)
