-- ===== src/Double.antt =====
-- The `double` of the compiler and the conversions of it that the source uses, as an interface: no
-- law of the arithmetic is assumed here.
use stoxdb.Prelude.{ℕ, List, Bool, Option}
use stoxdb.Prelude.Int.{ℤ}

pub record Double : Type 1 where
  pub F : Type 0
  -- `(double)n`.
  pub of_int : ℤ → F
  pub add : F → F → F
  pub sub : F → F → F
  pub mul : F → F → F
  pub div : F → F → F
  pub isinf : F → Bool
  -- `a < b` and `a == b`; both are false at a NaN.
  pub lt : F → F → Bool
  pub eq : F → F → Bool
  -- `(int64_t)d`, undefined at a NaN and out of range.
  pub to_int64 : F → Option ℤ
  -- The values of four and eight bytes that are read as a `float` and as a `double`.
  pub of_float_bytes : List ℕ → F
  pub of_double_bytes : List ℕ → F
  -- The bytes of `(float)d` and of `d`.
  pub to_float_bytes : F → List ℕ
  pub to_double_bytes : F → List ℕ
