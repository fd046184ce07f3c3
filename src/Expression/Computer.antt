-- ===== src/Expression/Computer.antt =====
-- `class Computer` of expression.cc. `data` is a list, its last element first. An operator's node
-- has no number: its field `v` is uninitialised, and reading it is undefined behaviour.
pub mod Syntax
pub mod Correct
use stoxdb.Prelude.{
  ℕ, suc, ◌%◌, ◌+◌, List, [], ◌∷◌, Bool, true, false, not, ◌&&◌, ◌||◌, Option, none, some, ◌==◌,
  reverse, if◌then◌else◌,
}
use stoxdb.Prelude.Int.{ℤ, pos, negsuc, pos_part, neg_part, sub_ℕ}
use stoxdb.Outcome.{Outcome, ok, ub, ◌>>=◌}
use stoxdb.Double.{Double}
use stoxdb.Expression.{Kind, kleft, kright, kadd, ksub, kmulti, kdiv, kmod, kdouble, is_kind}

-- `struct CNode`.
pub record CNode (F : Type 0) : Type 0 where
  pub type : Kind
  pub v : Option F

abbrev pub read_v : {F : Type 0} → CNode F → Outcome F
read_v n = elim n.v [ none ↦ ub | some a ↦ ok a ]

abbrev pub int64_min : ℤ
int64_min = negsuc 0x7fff_ffff_ffff_ffff

-- `a % b` on `int64_t`: the sign is that of `a`; a zero divisor traps, and so does INT64_MIN % -1.
unfoldable pub rem_int64 : ℤ → ℤ → Outcome ℤ
rem_int64 (pos a) (pos b) = if b == 0 then ub else ok (pos (a % b))
rem_int64 (pos a) (negsuc b) = ok (pos (a % suc b))
rem_int64 (negsuc a) (pos b) = if b == 0 then ub else ok (sub_ℕ 0 (suc a % b))
rem_int64 (negsuc a) (negsuc b) =
    if a == 0x7fff_ffff_ffff_ffff && b == 0 then ub else ok (sub_ℕ 0 (suc a % suc b))

-- Everything above the last left bracket, first element first, and what stands below the bracket.
unfoldable pub pop_group :
    {F : Type 0} → List (CNode F) → List (CNode F) → List (CNode F) × List (CNode F)
pop_group st [] = (st, [])
pop_group st (n ∷ rest) =
    let deeper = pop_group (n ∷ st) rest in if is_kind n.type kleft then (st, rest) else deeper

module _ (D : Double) where
  open D use {F, of_int, add, sub, mul, div, isinf, to_int64}

  abbrev pub zero_d : F
  zero_d = of_int (pos 0)

  abbrev pub int64 : F → Outcome ℤ
  int64 a = elim (to_int64 a) [ none ↦ ub | some n ↦ ok n ]

  abbrev pub number : F → CNode F
  number v = record { type = kdouble; v = some v }

  abbrev pub sign : Kind → CNode F
  sign t = record { type = t; v = none }

  abbrev pub is_multiplicative : Kind → Bool
  is_multiplicative t = is_kind t kmulti || is_kind t kdiv || is_kind t kmod

  -- A product, a quotient (0 where it is infinite) or a remainder of the integer parts.
  unfoldable pub combine : Kind → F → F → Outcome F
  combine t a v =
      if is_kind t kmulti
      then ok (mul a v)
      else if is_kind t kdiv
      then ok (if isinf (div a v) then zero_d else div a v)
      else (int64 a >>= λ m. int64 v >>= λ n. rem_int64 m n >>= λ r. ok (of_int r))

  unfoldable pub push_number : List (CNode F) → F → Outcome (List (CNode F))
  unfolding combine
  push_number (n ∷ a ∷ rest) v =
      if is_multiplicative n.type
      then (read_v a >>= λ x. combine n.type x v >>= λ t. ok (number t ∷ rest))
      else ok (number v ∷ n ∷ a ∷ rest)
  push_number d v = ok (number v ∷ d)

  -- The loop of `result` and of `push_opt` at `)`: an addition is assumed at the start, and a sign
  -- holds until the next one.
  unfoldable pub sum_loop : Bool → F → List (CNode F) → Outcome F
  sum_loop plus v [] = ok v
  sum_loop plus v (n ∷ st) = elim (is_kind n.type kadd) [
    | true ↦ sum_loop true v st
    | false ↦ elim (is_kind n.type ksub) [
      | true ↦ sum_loop false v st
      | false ↦ read_v n >>= λ x. sum_loop plus (if plus then add v x else sub v x) st
    ]
  ]

  unfoldable pub push_opt : List (CNode F) → Kind → Outcome (List (CNode F))
  unfolding pop_group sum_loop push_number
  push_opt d t =
      if is_kind t kright
      then (sum_loop true zero_d (pop_group [] d).0 >>= λ v. push_number (pop_group [] d).1 v)
      else ok (sign t ∷ d)

  unfoldable pub result : List (CNode F) → Outcome F
  unfolding sum_loop
  result d = sum_loop true zero_d (reverse d)
