-- ===== src/Base/Machine.antt =====
-- What the machine and the standard library leave open: arithmetic on `double`, and the order in
-- which an unordered container is walked.
use Prim.Native.Nat.{ℕ}
use mathlib.Core.Bool.{Bool}
use mathlib.Core.Logic.{◌↔◌}
use mathlib.Core.List.{List}
use dupa.Base.Lists.{In, Distinct}

pub record Platform : Type 1 where
  pub Double : Type 0
  -- the conversion of an integer, the operations, and the conversion to uint64_t
  pub of_ℕ : ℕ → Double
  pub add : Double → Double → Double
  pub mul : Double → Double → Double
  pub div : Double → Double → Double
  pub lt : Double → Double → Bool
  pub to_u64 : Double → ℕ
  -- an unordered set of pointers after the insertions, in the order in which it is walked
  pub elements : List ℕ → List ℕ
  pub elements-Distinct : (xs : List ℕ) → Distinct (elements xs)
  pub elements-In : (x : ℕ) (xs : List ℕ) → In x (elements xs) ↔ In x xs
