-- ===== src/Base.antt =====
-- Names that every module shares: those of the libraries, passed on, and those of its children.
-- `Tests` has the Boolean tests on numbers, `Lists` the arrays, `Bits` the bytes and masks,
-- `Memory` malloc and free, and `Codes` the return values of C functions (the error codes of
-- src/libusby.h).
mod Tests
mod Lists
mod Bits
mod Codes
mod Or
mod Memory
pub use Tests.*
pub use Lists.*
pub use Bits.*
pub use Or.*
pub use Codes.*
pub use Memory.*
pub use Prim.Native.Nat.{ℕ, zero, suc, ◌+◌, ◌-◌, ◌*◌, ◌/◌, ◌%◌, ◌^◌, ◌≤◌, ◌<◌, bit_or}
pub use mathlib.Core.Path.{◌≡◌, refl, sym, ap, ◌∙◌}
pub use mathlib.Core.Logic.{◌≢◌, ◌↔◌, ◌⊎◌, inl, inr}
pub use mathlib.Core.Bool.{Bool, true, false, not, ◌&&◌, ◌||◌}
pub use mathlib.Core.Option.{Option, none, some}
pub use mathlib.Core.List.{List, [], ◌∷◌, ◌++◌, map, append_assoc, append-nil}
pub use native.Mathlib.Omega.{arith}
