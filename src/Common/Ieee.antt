-- ===== src/Common/Ieee.antt =====
-- Go's `float64`, which is the hardware's: a type with operations, taken as a parameter.
use Prim.Native.Nat.{ℕ, ◌+◌, ◌≤◌, ◌<◌}
use mathlib.Core.Bool.{Bool}
use mathlib.Core.Path.{◌≡◌}
use go_libs.Common.Int.{ℤ, pos}

pub record Float : Type 1 where
  pub F : Type 0
  pub of_nat : ℕ → F
  pub of_int : ℤ → F
  pub half : F
  pub div : F → F → F
  pub mul : F → F → F
  pub add : F → F → F
  pub leb : F → F → Bool
  pub ltb : F → F → Bool
  -- `int(x)`, for `x` that is not negative.
  pub trunc : F → ℕ
  -- `int(x)`.
  pub to_int : F → ℤ

-- 2^53: the whole numbers up to it are exact.
abbrev pub exact_limit : ℕ
exact_limit = 9_007_199_254_740_992

-- What IEEE 754 says of whole numbers and of the order: operations round monotonically, and are
-- exact where the result is a whole number up to 2^53.
pub record IsIeee (f : Float) : Type 1 where
  pub le : f.F → f.F → Type 0
  pub div_nonneg : (a b : ℕ) → 0 < b → le (f.of_nat 0) (f.div (f.of_nat a) (f.of_nat b))
  pub div-le-one : (a b : ℕ) → a ≤ b → 0 < b → le (f.div (f.of_nat a) (f.of_nat b)) (f.of_nat 1)
  pub mul_mono : (p : ℕ) (x y : f.F) → le x y → le (f.mul (f.of_nat p) x) (f.mul (f.of_nat p) y)
  pub mul-zero : (p : ℕ) → p ≤ exact_limit → f.mul (f.of_nat p) (f.of_nat 0) ≡ f.of_nat 0
  pub mul-one : (p : ℕ) → p ≤ exact_limit → f.mul (f.of_nat p) (f.of_nat 1) ≡ f.of_nat p
  pub add_mono : (c : ℕ) (x y : f.F) → le x y → le (f.add x (f.of_nat c)) (f.add y (f.of_nat c))
  pub add_exact :
      (p c : ℕ) → p + c ≤ exact_limit → f.add (f.of_nat p) (f.of_nat c) ≡ f.of_nat (p + c)
  pub trunc_mono : (x y : f.F) → le x y → f.trunc x ≤ f.trunc y
  pub trunc_exact : (n : ℕ) → n ≤ exact_limit → f.trunc (f.of_nat n) ≡ n
  pub of_int_pos : (n : ℕ) → f.of_int (pos n) ≡ f.of_nat n
  pub to_int-trunc : (n : ℕ) (x : f.F) → le (f.of_nat n) x → f.to_int x ≡ pos (f.trunc x)
