-- ===== src/Base.antt =====
-- Names that every component shares: the libraries', passed on, Boolean tests, lists measured by
-- native numbers, tables (functions updated at one index) and steps that may stop.
mod Tests
mod Lists
mod Slices
mod Pigeonhole
mod Tables
mod Stacks
mod Faults
mod BitScan
pub use Tests.*
pub use Lists.*
pub use Slices.*
pub use Pigeonhole.*
pub use Tables.*
pub use Stacks.*
unfoldable pub use BitScan.*
pub use Faults.*
pub use Prim.Native.Nat.{
  ℕ, zero, suc, ◌+◌, ◌-◌, ◌*◌, ◌/◌, ◌%◌, ◌^◌, ◌≤◌, ◌<◌, min, max, bit_and, bit_or,
}
pub use mathlib.Core.Path.{◌≡◌, refl, sym, ap, ap₂, ◌∙◌, fun_ext, subst}
pub use mathlib.Core.Logic.{◌≢◌, ◌↔◌, ◌⊎◌, inl, inr}
pub use mathlib.Core.Bool.{Bool, true, false, not, ◌&&◌, ◌||◌}
pub use mathlib.Core.Option.{Option, none, some}
pub use mathlib.Core.List.{
  List, [], ◌∷◌, ◌++◌, map, reverse, append-nil, append_assoc, reverse-cons, reverse-append,
}
pub use native.Mathlib.Omega.{arith}
