-- ===== src/Common.antt =====
-- Shared by every module: the names of the library that the development uses, Boolean tests, lists
-- over the native numbers, exceptions as values.
pub mod Tests
pub mod Lists
pub mod Results
pub mod Ints
pub mod Maps
pub mod Positions
pub use vyne.Common.Tests.{
  ==_iff, Bool-cases, Option-cases, if◌then◌else◌, is_some, leb, leb→le, ltb, ltb→lt, lt→ltb, ◌==◌,
}
pub use vyne.Common.Lists.{
  All, drop, get_elem?, insert_at, length, length-append, length-take-le, remove_at, replicate, set,
  take,
}
pub use mathlib.Core.Bool.{Bool, false, not, true, ◌&&◌, ◌||◌}
pub use vyne.Common.Results.{
  Exception, Result, Result-cases, overflow_error, recursion_error, assertion_error, index_error,
  key_error, ok, raise, raise_if, runtime_error, type_error, value_error, ◌>>=◌, ◌>>◌,
}
pub use mathlib.Core.List.{List, [], map, ◌++◌, ◌∷◌}
pub use mathlib.Core.Option.{Option, none, some}
pub use Prim.Native.String.{String}
pub use mathlib.Core.Path.{ap, refl, subst, sym, ◌∙◌, ◌≡◌}
pub use mathlib.Core.List.{append-nil, append_assoc}
pub use native.Mathlib.Omega.{arith}
pub use mathlib.Core.Logic.{inl, inr, ◌↔◌, ◌≢◌, ◌⊎◌}
pub use Prim.Native.Nat.{suc, zero, ℕ, ◌%◌, ◌*◌, ◌+◌, ◌-◌, ◌/◌, ◌<◌, ◌≤◌}
