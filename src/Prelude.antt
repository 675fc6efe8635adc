-- ===== src/Prelude.antt =====
-- The names that the other modules share: the libraries', passed on, and those of the children.
mod Tests
mod Lists
mod Calls
mod Tables
mod Bits
mod Dict
mod Bytes
pub use Tests.*
pub use Lists.*
pub use Calls.*
pub use Bits.*
unfoldable pub use Tables.{check_from}
pub use Tables.{check_from_sound}
unfoldable pub use Dict.{lookup, insert, erase, contains, remove}
pub use Dict.{
  str_eq_self, str_eq_sound, str_eq_sym, lookup-insert, lookup-erase, Nodup, contains-remove,
  remove-Nodup,
}
unfoldable pub use Bytes.{from_bytes, eq_bytes}
pub use Bytes.{
  but_last, last, two_bytes, four_bytes, but_last-append, last-append, eq_bytes_self,
  eq_bytes_sound, from_bytes-four_bytes,
}
pub use text.Mathlib.Text.{◌==◌ as str_eq}
pub use text.Mathlib.TextEquality.{eq_iff}
pub use Prim.Native.Nat.{ℕ, zero, suc, ◌+◌, ◌-◌, ◌*◌, ◌/◌, ◌%◌, ◌^◌, ◌≤◌, ◌<◌, bit_and, bit_or}
pub use Prim.Native.String.{String}
pub use mathlib.Core.Path.{◌≡◌, refl, sym, ap, ap₂, subst, ◌∙◌}
pub use mathlib.Core.Logic.{◌≢◌, ◌↔◌, ◌⊎◌, inl, inr}
pub use mathlib.Core.Bool.{Bool, true, false, not, ◌&&◌, ◌||◌}
pub use mathlib.Core.Option.{Option, none, some}
pub use mathlib.Core.List.{List, [], ◌∷◌, ◌++◌, map}
pub use native.Mathlib.Omega.{arith}
