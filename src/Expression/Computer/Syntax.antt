-- ===== src/Expression/Computer/Syntax.antt =====
-- What a formula means: sums of products of operands and bracketed sums, `*`, `/` and `%` before `+`
-- and `-`, each from left to right. The calls that a formula makes on a `Computer` are its events.
use stoxdb.Prelude.{
  ℕ, suc, ◌%◌, ◌^◌, List, [], ◌∷◌, ◌++◌, Bool, false, ◌&&◌, ◌||◌, ◌==◌, if◌then◌else◌, Option, none,
  some,
}
use stoxdb.Prelude.Int.{ℤ, pos, negsuc, sub_ℕ}
use stoxdb.Outcome.{Outcome, ok, ub, ◌>>=◌}
use stoxdb.Double.{Double}
use stoxdb.Expression.{Kind, kleft, kright, kadd, ksub, kmulti, kdiv, kmod}
use stoxdb.Expression.Computer.{CNode, push_number, push_opt, result}

-- A call of `push_opt` or of `push_number`.
pub data Event (F : Type 0) : Type 0 where
  opt : Kind → Event F
  num : F → Event F

pub data AddOp : Type 0 where
  plus minus : AddOp

pub data MulOp : Type 0 where
  times over modulo : MulOp

abbrev pub add_kind : AddOp → Kind
add_kind plus = kadd
add_kind minus = ksub

abbrev pub mul_kind : MulOp → Kind
mul_kind times = kmulti
mul_kind over = kdiv
mul_kind modulo = kmod

mutual
  pub data Sum (F : Type 0) : Type 0 where
    single : Term F → Sum F
    chain : Sum F → AddOp → Term F → Sum F

  pub data Term (F : Type 0) : Type 0 where
    factor : Factor F → Term F
    product : Term F → MulOp → Factor F → Term F

  pub data Factor (F : Type 0) : Type 0 where
    leaf : F → Factor F
    group : Sum F → Factor F

module _ {F : Type 0} where
  unfoldable mutual
    pub events_sum : Sum F → List (Event F)
    events_sum (single t) = events_term t
    events_sum (chain s o t) = events_sum s ++ (opt (add_kind o) ∷ events_term t)

    pub events_term : Term F → List (Event F)
    events_term (factor f) = events_factor f
    events_term (product t o f) = events_term t ++ (opt (mul_kind o) ∷ events_factor f)

    pub events_factor : Factor F → List (Event F)
    events_factor (leaf v) = num v ∷ []
    events_factor (group s) = opt kleft ∷ (events_sum s ++ opt kright ∷ [])

-- The integer part of a number, where it has 64 bits.
abbrev pub integer_part : Option ℤ → Outcome ℤ
integer_part none = ub
integer_part (some n) = ok n

abbrev pub magnitude : ℤ → ℕ
magnitude (pos n) = n
magnitude (negsuc n) = suc n

abbrev pub with_sign_of : ℤ → ℕ → ℤ
with_sign_of (pos m) n = pos n
with_sign_of (negsuc m) n = sub_ℕ 0 n

-- Is the quotient of `-2^63` and `-1` asked for?
abbrev pub is_too_large : ℤ → ℤ → Bool
is_too_large (negsuc a) (negsuc b) = suc a == 2 ^ 63 && suc b == 1
is_too_large m n = false

-- The remainder of the magnitudes with the sign of the dividend, where the quotient is there.
abbrev pub remainder : ℤ → ℤ → Outcome ℤ
remainder m n =
    if magnitude n == 0 || is_too_large m n
    then ub
    else ok (with_sign_of m (magnitude m % magnitude n))

module _ (D : Double) where
  open D use {F, of_int, add, sub, mul, div, isinf, to_int64}

  abbrev pub apply_add : AddOp → F → F → F
  apply_add plus a b = add a b
  apply_add minus a b = sub a b

  -- A quotient that is infinite counts as zero; a remainder is one of the integer parts.
  abbrev pub apply_mul : MulOp → F → F → Outcome F
  apply_mul times a b = ok (mul a b)
  apply_mul over a b = ok (if isinf (div a b) then of_int (pos 0) else div a b)
  apply_mul modulo a b = integer_part (to_int64 a) >>= λ m.
      integer_part (to_int64 b) >>= λ n. remainder m n >>= λ r. ok (of_int r)

  -- The sum starts from zero, as the code's does.
  unfoldable mutual
    pub eval_sum : Sum F → Outcome F
    eval_sum (single t) = eval_term t >>= λ v. ok (add (of_int (pos 0)) v)
    eval_sum (chain s o t) = eval_sum s >>= λ a. eval_term t >>= λ b. ok (apply_add o a b)

    pub eval_term : Term F → Outcome F
    eval_term (factor f) = eval_factor f
    eval_term (product t o f) = eval_term t >>= λ a. eval_factor f >>= λ b. apply_mul o a b

    pub eval_factor : Factor F → Outcome F
    eval_factor (leaf v) = ok v
    eval_factor (group s) = eval_sum s

  -- The calls of one formula, one after another.
  unfoldable pub feed : List (CNode F) → List (Event F) → Outcome (List (CNode F))
  feed d [] = ok d
  feed d (opt k ∷ es) = push_opt D d k >>= λ d'. feed d' es
  feed d (num v ∷ es) = push_number D d v >>= λ d'. feed d' es

  -- `init`, the calls, `result`.
  unfoldable pub compute : List (Event F) → Outcome F
  unfolding feed
  compute es = feed [] es >>= result D
