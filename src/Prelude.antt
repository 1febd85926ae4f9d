-- ===== src/Prelude.antt =====
-- Names that every module shares: the libraries' passed on, tests, lists, texts and dictionaries.
mod Tests
mod Lists
mod Texts
mod Outcome
pub mod Int
pub mod Dict
pub mod Sort
pub mod Paths
pub use Tests.*
pub use Lists.*
pub use Texts.*
unfoldable pub use Texts.{
  ◌==◌, lower_byte, to_lower, has_prefix, has_suffix, contains, is_space, trim_left, trim_space,
  before_byte, replace_byte,
}
pub use Outcome.*
pub use Prim.Native.Nat.{ℕ, zero, suc, ◌+◌, ◌-◌, ◌*◌, ◌/◌, ◌%◌, ◌^◌, ◌≤◌, ◌<◌}
pub use mathlib.Core.Path.{◌≡◌, refl, sym, ap, ◌∙◌}
pub use mathlib.Core.Logic.{◌≢◌, ◌↔◌, ◌⊎◌, inl, inr}
pub use mathlib.Core.Bool.{Bool, true, false, not, ◌&&◌, ◌||◌}
pub use mathlib.Core.Option.{Option, none, some}
pub use mathlib.Core.List.{List, [], ◌∷◌, ◌++◌, map}
pub use native.Mathlib.Omega.{arith}
