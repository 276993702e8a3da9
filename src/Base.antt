-- ===== src/Base.antt =====
-- The names that the other modules share: the libraries', passed on, and those of the children:
-- tests on numbers, lists, texts as lists of bytes, and string-keyed maps.
mod Tests
mod Lists
mod Bytes
mod Maps
mod Words
mod Int
mod Float
pub use Tests.*
pub use Lists.*
pub use Bytes.*
unfoldable pub use Bytes.{text_eq, to_lower}
pub use Maps.*
unfoldable pub use Maps.{find, insert, delete}
pub use Words.*
pub use Int.*
pub use Float.*
unfoldable pub use Float.{ulp, nearest, round_ratio, round}
pub use Prim.Native.Nat.{ℕ, zero, suc, ◌+◌, ◌-◌, ◌*◌, ◌/◌, ◌%◌, ◌^◌, ◌≤◌, ◌<◌}
pub use mathlib.Core.Path.{◌≡◌, refl, sym, ap, ◌∙◌, subst}
pub use mathlib.Core.Logic.{◌≢◌, ◌↔◌, ◌⊎◌, inl, inr}
pub use mathlib.Core.Bool.{Bool, true, false, not, ◌&&◌, ◌||◌}
pub use mathlib.Core.Option.{Option, none, some}
pub use mathlib.Core.List.{List, [], ◌∷◌, ◌++◌, map}
pub use native.Mathlib.Omega.{arith}
