-- ===== src/Prelude.antt =====
-- The names that the other modules share: the libraries', passed on, and those of the children.
mod Tests
mod Lists
mod Text
mod Maybe
mod Maps
pub use Tests.*
pub use Lists.*
pub use Maybe.*
pub use Maps.{length-delete-lt, length-put-le, put-has_key, find-append, put-append}
unfoldable pub use Maps.{find, put, delete, has_key}
pub use Text.{
  take_front, drop_front, drop_behind, index_byte-append, index_byte-none, codes, Bytes,
  bytes_eq_refl, bytes_eq_iff, IsByte, has_suffix-append, last_index_byte-append, is_space,
  trim_left, trim_right, trim_space, eq_of_has_suffix,
}
unfoldable pub use Text.{bytes_eq, has_prefix, has_suffix, last_index_byte, index_byte}
pub use Prim.Native.Nat.{
  ℕ, zero, suc, ◌+◌, ◌-◌, ◌*◌, ◌/◌, ◌%◌, ◌^◌, ◌≤◌, ◌<◌, min, max, bit_and, bit_or,
}
pub use mathlib.Core.Path.{◌≡◌, refl, sym, ap, ◌∙◌}
pub use mathlib.Core.Logic.{◌≢◌, ◌↔◌, ◌⊎◌, inl, inr}
pub use mathlib.Core.Bool.{Bool, true, false, ◌&&◌, ◌||◌, not}
pub use mathlib.Core.Option.{Option, none, some}
pub use mathlib.Core.List.{List, [], ◌∷◌, ◌++◌, map, append_assoc, append-nil}
pub use native.Mathlib.Omega.{arith}
