-- ===== src/Base.antt =====
-- The names that every module shares: the libraries', passed on, and those of the children.
mod Tests
mod Lists
mod Rows
pub mod Int
pub mod Text
pub mod Ip
pub mod Decimal
pub use Tests.*
pub use Lists.*
unfoldable pub use Rows.{update_rows, count_rows, select_rows, find_row}
pub use Rows.{
  update_rows-All, update_rows-change, select_rows-All, find_row-fits, update_rows_none,
  count_rows-update_rows, count_rows-append, count_rows-select_rows, count_rows-take,
  select_rows-kept, take-All, find_row-All, find_row-some, count_rows-witness, count_rows_zero,
}
pub use Prim.Native.Nat.{ℕ, zero, suc, ◌+◌, ◌-◌, ◌*◌, ◌/◌, ◌%◌, ◌^◌, ◌≤◌, ◌<◌}
pub use mathlib.Core.Path.{◌≡◌, refl, sym, ap, subst, ◌∙◌}
pub use mathlib.Core.Logic.{◌≢◌, ◌↔◌, ◌⊎◌, inl, inr}
pub use mathlib.Core.Bool.{Bool, true, false, not, ◌&&◌, ◌||◌}
pub use mathlib.Core.Option.{Option, none, some}
pub use mathlib.Core.List.{List, [], ◌∷◌, ◌++◌, map, append-nil, append_assoc}
pub use native.Mathlib.Omega.{arith}
