-- ===== src/Prelude/Float.antt =====
-- Go's `float64`. The model computes with no floating-point number: the type and the operations that
-- the code uses are a parameter. An instance gives IEEE 754 arithmetic, or any other.
use Prim.Native.Nat.{ℕ}
use mathlib.Core.Bool.{Bool}
use hoster.Prelude.Int.{ℤ}

pub record Float64 : Type 1 where
  pub F : Type 0
  pub lt : F → F → Bool
  pub le : F → F → Bool
  pub add : F → F → F
  pub sub : F → F → F
  pub mul : F → F → F
  pub div : F → F → F
  pub of_int : ℤ → F
  -- The constant n / 10^k of the source, by its digits.
  pub decimal : (n k : ℕ) → F
