-- ===== src/Base.antt =====
-- Names that the other modules share: the libraries', passed on, Boolean tests, equality as an
-- instance, and Python's `any`, `in` and set union over lists.
mod Tests
mod Lists
mod Dicts
pub use Tests.*
unfoldable pub use Lists.*
unfoldable pub use Dicts.*
pub use Prim.Native.Nat.{ℕ, zero, suc, ◌+◌, ◌-◌, ◌*◌, ◌≤◌, ◌<◌}
pub use Prim.Native.String.{String}
pub use mathlib.Core.Path.{◌≡◌, refl, sym, ap, ◌∙◌, subst}
pub use mathlib.Core.Logic.{◌≢◌, ◌↔◌, ◌⊎◌, inl, inr}
pub use mathlib.Core.Bool.{Bool, true, false, not, ◌&&◌, ◌||◌}
pub use mathlib.Core.Option.{Option, none, some}
pub use mathlib.Core.List.{List, [], ◌∷◌, ◌++◌, map, Memᴰ}
pub use native.Mathlib.Omega.{arith}
