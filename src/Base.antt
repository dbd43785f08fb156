-- ===== src/Base.antt =====
-- The names that the other modules share: those of the libraries, passed on, and the helpers of the
-- children.
mod Tests
mod Lists
pub mod Dict
pub mod Texts
pub mod Results
pub mod Int
pub mod Decimal
pub use Tests.*
pub use Lists.*
unfoldable pub use Dict.{insert, delete, move_to_end}
pub use Dict.{keys, IsDict}
unfoldable pub use Texts.{
  Text-discrete, text_eq, mem_text, mem_char, is_space, lstrip, push_strip, rstrip, strip,
  push_word, split_on, last_or,
}
pub use Texts.{Text, codes}
pub use Results.{Result, ok, raise, ◌>>=◌, bind_returns, ok_injective, Result-cases, raise_ok}
pub use Prim.Native.Nat.{ℕ, zero, suc, ◌+◌, ◌-◌, ◌*◌, ◌/◌, ◌%◌, ◌^◌, ◌≤◌, ◌<◌, min, max}
pub use mathlib.Core.Path.{◌≡◌, refl, sym, ap, subst, ◌∙◌}
pub use mathlib.Core.Logic.{◌≢◌, ◌↔◌, ◌⊎◌, inl, inr, ite, if_pos, if_neg}
pub use mathlib.Core.Bool.{Bool, true, false, not, ◌&&◌, ◌||◌}
pub use mathlib.Core.Option.{Option, none, some}
unfoldable pub use mathlib.Core.List.{lookup}
pub use mathlib.Core.List.{List, [], ◌∷◌, ◌++◌, map, append-nil, append_assoc}
pub use native.Mathlib.Omega.{arith}
unfoldable pub use native.Mathlib.Decide.{dec_lt, dec_le, ℕ_discrete}
