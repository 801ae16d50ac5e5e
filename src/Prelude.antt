-- ===== src/Prelude.antt =====
-- The names that the other modules share: the libraries', passed on, and those of the children. `Tests`
-- has the Boolean tests, `Lists` the lists over the native numbers, `Texts` strings as lists of bytes,
-- `Dicts` maps with string keys, `Words` fixed-width little-endian numbers (Go's `encoding/binary`),
-- `Decimal` the decimal print (Go's `strconv`).
mod Tests
mod Lists
mod Texts
mod Dicts
pub mod Words
pub mod Decimal
pub use Tests.*
pub use Lists.*
unfoldable pub use Texts.*
unfoldable pub use Dicts.*
pub use Prim.Native.Nat.{ℕ, zero, suc, ◌+◌, ◌-◌, ◌*◌, ◌/◌, ◌%◌, ◌^◌, ◌≤◌, ◌<◌}
pub use mathlib.Core.Path.{◌≡◌, refl, sym, ap, ◌∙◌}
pub use mathlib.Core.Logic.{◌≢◌, ◌↔◌, ◌⊎◌, inl, inr}
pub use mathlib.Core.Bool.{Bool, true, false, ◌&&◌, ◌||◌, not}
pub use mathlib.Core.Option.{Option, none, some}
pub use mathlib.Core.List.{List, [], ◌∷◌, ◌++◌, map, append_assoc, append-nil}
pub use native.Mathlib.Omega.{arith}
