-- ===== src/Base.antt =====
-- Names that every component uses: the libraries' passed on, Boolean tests and lists over the
-- native numbers, and results with an error value for code that throws.
mod Tests
mod Lists
mod Results
pub mod Bits
pub mod Int
pub use Tests.*
pub use Lists.*
pub use Results.*
pub use Int.{
  ℤ, pos, negsuc, neg_ℕ, pos_part, neg_part, sub_ℕ, ◌<ℤ◌, ltb_ℤ, leb_ℤ, eq_ℤ, eq_of_parts,
}
pub use Prim.Native.Nat.{ℕ, zero, suc, ◌+◌, ◌-◌, ◌*◌, ◌/◌, ◌%◌, ◌^◌, ◌≤◌, ◌<◌}
pub use Prim.Native.String.{String}
pub use mathlib.Core.Path.{◌≡◌, refl, sym, ap, subst, ◌∙◌, ◌≡⟨◌⟩◌, ◌∎}
pub use mathlib.Core.Logic.{◌≢◌, ◌↔◌, ◌⊎◌, inl, inr}
pub use mathlib.Core.Bool.{Bool, true, false, not, ◌&&◌, ◌||◌}
pub use mathlib.Core.Option.{Option, none, some}
pub use mathlib.Core.List.{List, [], ◌∷◌, ◌++◌, map}
pub use text.Mathlib.Text.{◌==◌ as str_eq}
pub use text.Mathlib.TextEquality.{eq_iff}
pub use native.Mathlib.Omega.{arith}
