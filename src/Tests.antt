-- ===== src/Tests.antt =====
-- The theorems at concrete inputs: a formula, a condition, a configuration and buffers small enough to
-- read.
mod Formulas
mod Conditions
mod Tables
mod Records
mod Connections
mod Requests
mod Stores
mod Groups
use stoxdb.Prelude.{◌/◌, [], ◌∷◌, false, not, ◌&&◌, some}
use stoxdb.Prelude.Int.{ℤ, pos, negsuc, ◌+ℤ◌, ◌-ℤ◌, ◌*ℤ◌, ltb_ℤ, pos_part}
use stoxdb.Double.{Double}
use stoxdb.Base.Bytes.{from_le, setint}
use stoxdb.Expression.{Kind, Node}

-- Integers in the place of floating point numbers.
abbrev pub int_double : Double
int_double = record {
  F = ℤ;
  of_int = λ n. n;
  add = ◌+ℤ◌;
  sub = ◌-ℤ◌;
  mul = ◌*ℤ◌;
  div = λ a b. pos (pos_part a / pos_part b);
  isinf = λ a. false;
  lt = ltb_ℤ;
  eq = λ a b. not (ltb_ℤ a b) && not (ltb_ℤ b a);
  to_int64 = λ a. some a;
  of_float_bytes = λ bs. pos (from_le bs);
  of_double_bytes = λ bs. pos (from_le bs);
  to_float_bytes = λ a. setint 4 a;
  to_double_bytes = λ a. setint 8 a;
}

-- A node of a kind, with the number 7 and the name `a`.
abbrev pub sample : Kind → Node ℤ
sample k = record { type = k; id = 0; vd = pos 7; vs = b'a' ∷ [] }
