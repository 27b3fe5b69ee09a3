-- ===== src/Prelude.antt =====
-- Names that every component shares: the libraries' and those of the children.
mod Tests
mod Lists
mod Dict
mod Mod
pub use Mod.*
pub use Tests.*
pub use Lists.*
unfoldable pub use Dict.{lookup, insert, update}
pub use Dict.{lookup-insert, lookup-insert-ne, lookup-insert-eq, update_lem}
pub use Prim.Native.Nat.{ℕ, zero, suc, ◌+◌, ◌-◌, ◌*◌, ◌/◌, ◌%◌, ◌^◌, ◌≤◌, ◌<◌}
pub use Prim.Native.String.{String}
pub use mathlib.Core.Path.{◌≡◌, refl, sym, ap, ◌∙◌}
pub use mathlib.Core.Logic.{◌≢◌, ◌↔◌, ◌⊎◌, inl, inr}
pub use mathlib.Core.Bool.{Bool, true, false, not, ◌&&◌, ◌||◌}
pub use mathlib.Core.Option.{Option, none, some}
pub use mathlib.Core.List.{List, [], ◌∷◌, ◌++◌, map}
pub use native.Mathlib.Omega.{arith}
