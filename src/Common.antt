-- ===== src/Common.antt =====
-- Names that every module shares: the libraries' own, passed on, Boolean tests, lists over native
-- numbers, results with Python's exceptions, and byte strings with the interface of the hash function.
pub mod Tests
pub mod Lists
pub mod Results
pub mod Bytes
pub mod Texts
pub mod Toy
pub mod Ascending
pub mod Bits
pub mod Field
pub mod Dict
pub use Tests.*
pub use Lists.*
pub use Results.*
pub use Prim.Native.Nat.{ℕ, zero, suc, ◌+◌, ◌-◌, ◌*◌, ◌/◌, ◌%◌, ◌^◌, ◌≤◌, ◌<◌, min, max}
pub use mathlib.Core.Path.{◌≡◌, refl, sym, ap, subst, ◌∙◌}
pub use mathlib.Core.Logic.{◌≢◌, ◌↔◌, ◌⊎◌, inl, inr}
pub use mathlib.Core.Bool.{Bool, true, false, not, ◌&&◌, ◌||◌}
pub use mathlib.Core.Option.{Option, none, some}
pub use mathlib.Core.List.{List, [], ◌∷◌, ◌++◌, map}
pub use native.Mathlib.Omega.{arith}
