-- ===== src/Expression/Check.antt =====
-- `check_expression` of expression.cc. The stack is a list, its top first.
pub mod Grammar
pub mod Brackets
use stoxdb.Prelude.{ℕ, List, [], ◌∷◌, Bool, true, false, ◌||◌, if◌then◌else◌}
use stoxdb.Outcome.{Outcome, ok, err, ub, ◌>>=◌, Message}
use stoxdb.Expression.{
  Kind, kleft, kright, kname, ordinal, is_kind, is_four_type, is_digit_type, Node, Expression,
}

-- The numbers 1, 2 and 3 on the stack: a left bracket, an operator, an operand.
pub data Cell : Type 0 where
  left opt digit : Cell

-- At `)`: the two cells on top must be an operand and a left bracket.
unfoldable pub close : List Cell → Outcome (List Cell)
close (digit ∷ left ∷ s) = ok (digit ∷ s)
close (a ∷ b ∷ s) = err Message.before_right
close (a ∷ []) = err Message.lack_left
close [] = err Message.lack_left

-- At an operator: an operand must be on top.
unfoldable pub operator : List Cell → Kind → Outcome (List Cell)
operator (digit ∷ s) k = ok (opt ∷ digit ∷ s)
operator _ k = err (Message.besize_operator (ordinal k))

-- At an operand: an operator on top is popped together with the cell below it, which is
-- undefined behaviour where there is none.
unfoldable pub operand : List Cell → Outcome (List Cell)
operand (opt ∷ a ∷ s) = ok (digit ∷ s)
operand (opt ∷ []) = ub
operand s = ok (digit ∷ s)

module _ {F : Type 0} where
  -- The body of the loop.
  unfoldable pub check_step : List Cell → Node F → Outcome (List Cell)
  unfolding close operator operand
  check_step s x =
      if is_kind x.type kleft
      then ok (left ∷ s)
      else if is_kind x.type kright
      then close s
      else if is_four_type x.type
      then operator s x.type
      else if is_kind x.type kname || is_digit_type x.type
      then operand s
      else err (Message.unsupported_type (ordinal x.type))

  unfoldable pub check_loop : List Cell → Expression F → Outcome (List Cell)
  check_loop s [] = ok s
  check_loop s (x ∷ xs) = check_step s x >>= λ s'. check_loop s' xs

-- `stack.size() == 1 && stack[0] == digit`; the message is not set.
unfoldable pub single_digit : List Cell → Outcome (Unit {0})
single_digit (digit ∷ []) = ok tt
single_digit _ = err Message.unset

unfoldable pub check_expression : {F : Type 0} → Expression F → Outcome (Unit {0})
unfolding check_loop single_digit
check_expression ex = check_loop [] ex >>= single_digit
