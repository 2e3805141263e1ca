-- ===== src/Base.antt =====
-- The names that the other modules share: the libraries', passed on, and those of the children.
pub mod Int
mod Tests
mod Lists
mod Str
mod Slices
mod Join
pub use Int.{ℤ, pos, negsuc}
pub use Tests.*
pub use Lists.*
pub use Slices.{Infix, Infix-refl, Infix-trans, strip-Infix, slice-Infix}
pub use Join.{join, join-Infix, starts_with, Infix-is_part, is_part-Infix}
unfoldable pub use Join.{is_part}
pub use Str.{Text, codes, or_text, is_empty, IsUnique}
unfoldable pub use Str.{text_eq, is_listed, is_space, lstrip, rstrip, strip}
pub use Str.{text_eq_iff, text_eq_refl, text_eq_ne}
pub use Prim.Native.Nat.{
  ℕ, zero, suc, ◌+◌, ◌-◌, ◌*◌, ◌/◌, ◌%◌, ◌^◌, ◌≤◌, ◌<◌, min, max, compare, Ordering,
}
pub use Prim.Native.String.{String}
pub use mathlib.Core.Path.{◌≡◌, refl, sym, ap, ◌∙◌, subst, fun_ext}
pub use mathlib.Core.Logic.{◌≢◌, ◌↔◌, ◌⊎◌, inl, inr}
pub use mathlib.Core.Bool.{Bool, true, false, ◌&&◌, ◌||◌, not}
pub use mathlib.Core.Option.{Option, none, some}
pub use mathlib.Core.List.{List, [], ◌∷◌, ◌++◌, map, append-nil, append_assoc, map-append}
pub use native.Mathlib.Omega.{arith}
