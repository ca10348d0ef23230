-- ===== src/Base.antt =====
-- Shared names: the libraries', passed on, and the helpers of two children (tests on numbers,
-- byte lists). A C byte is a number below 256; a block of memory is a list of bytes.
mod Tests
mod Lists
mod Loops
mod Cells
mod Passes
mod Sums
pub use Tests.*
pub use Lists.*
pub use Loops.*
pub use Cells.*
pub use Passes.*
pub use Sums.*
pub use Prim.Native.Nat.{ℕ, zero, suc, ◌+◌, ◌-◌, ◌*◌, ◌/◌, ◌%◌, ◌^◌, ◌≤◌, ◌<◌}
pub use Prim.Native.String.{String}
pub use mathlib.Core.Path.{◌≡◌, refl, sym, ap, ap₂, ◌∙◌, subst}
pub use mathlib.Core.Logic.{◌≢◌, ◌↔◌, ◌⊎◌, inl, inr}
pub use mathlib.Core.Bool.{Bool, true, false, not, ◌&&◌, ◌||◌}
pub use mathlib.Core.Option.{Option, none, some}
pub use mathlib.Core.List.{List, [], ◌∷◌, ◌++◌, map, append-nil, append_assoc}
pub use native.Mathlib.Omega.{arith}
