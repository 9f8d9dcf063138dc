-- ===== src/Base.antt =====
-- Names that every component shares: the libraries' names, passed on, and those of the children.
mod Tests
mod Lists
mod Equality
mod Maps
mod Sql
mod Strings
mod Numbers
mod Int
pub use Tests.*
pub use Lists.*
pub use Equality.*
unfoldable pub use Maps.*
unfoldable pub use Sql.*
unfoldable pub use Strings.*
pub use Numbers.*
unfoldable pub use Int.*
pub use Prim.Native.Nat.{ℕ, zero, suc, ◌+◌, ◌-◌, ◌*◌, ◌/◌, ◌%◌, ◌^◌, ◌≤◌, ◌<◌}
pub use mathlib.Core.Path.{◌≡◌, refl, sym, ap, ◌∙◌, subst, fun_ext}
pub use mathlib.Core.Logic.{◌≢◌, ◌↔◌, ◌⊎◌, inl, inr}
pub use mathlib.Core.Bool.{Bool, true, false, ◌&&◌, ◌||◌, not}
pub use mathlib.Core.Option.{Option, none, some}
pub use mathlib.Core.List.{List, [], ◌∷◌, ◌++◌, map, append-nil, append_assoc}
pub use native.Mathlib.Omega.{arith}
