-- ===== src/Base.antt =====
-- What the modules share: the libraries' names, passed on, and the helpers of the child modules.
pub mod Tests
pub mod Lists
pub mod Equality
pub mod Maps
pub mod Int
pub mod Strings
pub mod Sort
pub mod Perms
pub use Tests.*
pub use Lists.*
pub use Equality.*
unfoldable pub use Maps.*
pub use Int.*
unfoldable pub use Strings.*
unfoldable pub use Sort.*
pub use Perms.*
pub use Prim.Native.Nat.{ℕ, zero, suc, ◌+◌, ◌-◌, ◌*◌, ◌/◌, ◌%◌, ◌^◌, ◌≤◌, ◌<◌, min, max}
pub use mathlib.Core.Path.{subst, ◌≡◌, refl, sym, ap, ap₂, ◌∙◌}
pub use mathlib.Core.Logic.{◌≢◌, ◌↔◌, ◌⊎◌, inl, inr}
pub use mathlib.Core.Bool.{Bool, true, false, not, ◌&&◌, ◌||◌}
pub use mathlib.Core.Option.{Option, none, some}
pub use mathlib.Core.List.{
  List, [], ◌∷◌, ◌++◌, map, reverse, reverse-append, reverse-reverse, append-nil, append_assoc,
  Perm,
}
pub use native.Mathlib.Omega.{arith}
unfoldable pub use native.Mathlib.Decide.{dec_lt, dec_le, ℕ_discrete}
