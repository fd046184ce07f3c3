-- ===== src/Logical/Check.antt =====
-- `push_expr` and `check_logical` of logical.cc. The stack is a list, its top first.
pub mod Grammar
pub mod Language
use stoxdb.Prelude.{ℕ, List, [], ◌∷◌, Bool, true, false, ◌&&◌, ◌||◌, if◌then◌else◌}
use stoxdb.Outcome.{Outcome, ok, err, ub, hang, ◌>>=◌, Message}
use stoxdb.Expression.{
  Kind, kleft, kright, kname, kchar, ordinal, is_kind, is_compare_type, is_like_type,
  is_logical_type, Node, Expression,
}
use stoxdb.Expression.Check.{check_expression}
use stoxdb.Logical.{LogicalNode, Logical}

-- The numbers 1, 2 and 3 on the stack.
pub data Cell : Type 0 where
  left opt expr : Cell

-- An expression and an operator on top are merged with the new expression.
unfoldable pub push_expr : List Cell → List Cell
push_expr (opt ∷ expr ∷ s) = expr ∷ s
push_expr s = expr ∷ s

unfoldable pub close : List Cell → Outcome (List Cell)
unfolding push_expr
close (expr ∷ left ∷ s) = ok (push_expr s)
close (a ∷ b ∷ s) = err Message.before_right
close (a ∷ []) = err Message.lack_left
close [] = err Message.lack_left

unfoldable pub operator : List Cell → Kind → Outcome (List Cell)
operator (expr ∷ s) k = ok (opt ∷ expr ∷ s)
operator _ k = err (Message.besize_operator (ordinal k))

-- An operator on top is popped with the cell below it, then the expression is pushed.
unfoldable pub operand : List Cell → Outcome (List Cell)
unfolding push_expr
operand (opt ∷ a ∷ s) = ok (push_expr s)
operand (opt ∷ []) = ub
operand s = ok (push_expr s)

unfoldable pub relabel : Message → Outcome (Unit {0}) → Outcome (Unit {0})
relabel m (ok u) = ok u
relabel m (err _) = err m
relabel m ub = ub
relabel m hang = hang

module _ {F : Type 0} where
  -- `ex.size() == 1 && ex[0]->type == k`.
  unfoldable pub is_single : Kind → Expression F → Bool
  is_single k (x ∷ []) = is_kind x.type k
  is_single k _ = false

  -- `check_expression` with another message.
  unfoldable pub check_side : Message → Expression F → Outcome (Unit {0})
  unfolding relabel
  check_side m ex = relabel m (check_expression ex)

  -- The operands of a comparison: a field and a string, or two numeric expressions.
  unfoldable pub check_compare : LogicalNode F → Outcome (Unit {0})
  unfolding is_single check_side
  check_compare x =
      if is_single kname x.left && is_single kchar x.right
      then ok tt
      else (check_side Message.left_invalid x.left >>= λ _.
          check_side Message.right_invalid x.right)

  unfoldable pub check_like : LogicalNode F → Outcome (Unit {0})
  unfolding is_single
  check_like x =
      if is_single kname x.left
      then (if is_single kchar x.right then ok tt else err Message.like_not_string)
      else err Message.like_not_field

  -- The body of the loop.
  unfoldable pub check_step : List Cell → LogicalNode F → Outcome (List Cell)
  check_step s x =
      if is_kind x.type kleft
      then ok (left ∷ s)
      else if is_kind x.type kright
      then close s
      else if is_logical_type x.type
      then operator s x.type
      else if is_compare_type x.type
      then (check_compare x >>= λ _. operand s)
      else if is_like_type x.type
      then (check_like x >>= λ _. operand s)
      else err (Message.not_logical_type (ordinal x.type))

  unfoldable pub check_loop : List Cell → Logical F → Outcome (List Cell)
  unfolding check_step
  check_loop s [] = ok s
  check_loop s (x ∷ xs) = check_step s x >>= λ s'. check_loop s' xs

unfoldable pub single_expr : List Cell → Outcome (Unit {0})
single_expr (expr ∷ []) = ok tt
single_expr _ = err Message.loss_expression

unfoldable pub check_logical : {F : Type 0} → Logical F → Outcome (Unit {0})
unfolding check_loop single_expr
check_logical lg = check_loop [] lg >>= single_expr
