-- ===== src/Base.antt =====
-- The names that the other modules share: the libraries', passed on, and those of the children.
pub mod Tests
pub mod Int
pub mod Assoc
pub mod Lists
pub mod Table
pub use Tests.{
  ltb, leb, ◌==◌, if◌then◌else◌, ==_iff, eq_self, Bool-cases, Option-cases, if-split, is_some,
}
pub use Int.{ℤ, pos, negsuc, is_neg, is_zero}
pub use Prim.Native.Nat.{ℕ, zero, suc, ◌+◌, ◌-◌, ◌*◌, ◌/◌, ◌%◌, ◌^◌, ◌≤◌, ◌<◌}
pub use mathlib.Core.Path.{◌≡◌, refl, sym, ap, ◌∙◌}
pub use mathlib.Core.Logic.{◌≢◌, ◌↔◌, ◌⊎◌, inl, inr}
pub use mathlib.Core.Bool.{Bool, true, false, not, ◌&&◌, ◌||◌}
pub use mathlib.Core.Option.{Option, none, some}
pub use mathlib.Core.List.{List, [], ◌∷◌, ◌++◌, map}
pub use native.Mathlib.Omega.{arith}

-- A `size_t` or `uint64_t` value.
abbrev pub u64 : ℕ → ℕ
u64 n = n % 2 ^ 64
