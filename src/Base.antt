-- ===== src/Base.antt =====
-- What the modules share: the libraries' names, passed on, tests, integers, lists, Go's strings,
-- Go's errors, and calls that act on the world and may fail.
pub mod Tests
pub mod Int
pub mod Lists
pub mod Text
pub mod Errors
pub mod Effects
pub mod Steps
pub mod Success
mod Outcomes
pub mod Prefixes
pub mod Cuts
unfoldable pub use Tests.*
pub use Int.*
pub use Lists.*
unfoldable pub use Text.*
unfoldable pub use Errors.*
unfoldable pub use Effects.*
pub use Steps.*
pub use Success.*
pub use Outcomes.*
pub use Prefixes.*
pub use Cuts.*
pub use Prim.Native.Nat.{ℕ, zero, suc, ◌+◌, ◌≤◌, ◌<◌}
pub use Prim.Native.String.{String}
pub use mathlib.Core.Path.{◌≡◌, refl, sym, ap, ◌∙◌}
pub use mathlib.Core.Logic.{◌≢◌, ◌↔◌, ◌⊎◌, inl, inr}
pub use mathlib.Core.Bool.{Bool, true, false, not, ◌&&◌, ◌||◌}
pub use mathlib.Core.Option.{Option, none, some}
pub use mathlib.Core.List.{List, [], ◌∷◌, ◌++◌, append_assoc, append-nil}
pub use native.Mathlib.Omega.{arith}
