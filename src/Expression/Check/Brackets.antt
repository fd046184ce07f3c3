-- ===== src/Expression/Check/Brackets.antt =====
-- An operator before a left bracket: `a * (b + c)`, which expression.h lists as supported.
use stoxdb.Prelude.{List, [], ◌∷◌, ◌++◌, ◌||◌, ◌≢◌, inl, inr, Bool-cases, refl}
use stoxdb.Outcome.{
  Ensures, crashed, Ensures-bind, Ensures-trivial, Ensures-eq, Post-Ensures, bind_assoc, ok, ◌>>=◌,
  Post, returns, raises, Post-bind,
}
use stoxdb.Expression.{
  Kind, kleft, kright, kname, is_kind, is_four_type, is_digit_type, Node, Expression,
}
use stoxdb.Expression.Check.{
  Cell, left, opt, digit, close, operator, operand, check_step, check_loop, single_digit,
  check_expression,
}
use stoxdb.Expression.Check.Grammar.{
  IsOpen, IsOperator, IsOperand, check_step-open, check_step-close, check_step-operator,
  check_step-operand, check_step-other,
}

-- Somewhere an operator has a cell on top of it that is not an operator, or a digit lies on a digit.
-- Neither is ever taken apart: an operator is popped from the top only, and a digit together with the
-- operator above it or the bracket below it.
data Blocked : List Cell → Type 0 where
  base : {c : Cell} {s : List Cell} → c ≢ opt → Blocked (c ∷ opt ∷ s)
  twin : {s : List Cell} → Blocked (digit ∷ digit ∷ s)
  more : {c : Cell} {s : List Cell} → Blocked s → Blocked (c ∷ s)

digit≢opt : digit ≢ opt
digit≢opt e = cc

operand-Blocked : {s : List Cell} → Blocked s → Post Blocked (operand s)
unfolding operand
operand-Blocked (base {c = left} h) = returns (more (base h))
operand-Blocked (base {c = digit} h) = returns (more (base h))
operand-Blocked (base {c = opt} h) = absurd (h refl)
operand-Blocked twin = returns (more twin)
operand-Blocked (more {c = left} h) = returns (more (more h))
operand-Blocked (more {c = digit} h) = returns (more (more h))
operand-Blocked (more {c = opt} (base h)) = returns (base digit≢opt)
operand-Blocked (more {c = opt} twin) = returns twin
operand-Blocked (more {c = opt} (more h)) = returns (more h)

operator-Blocked : {s : List Cell} (k : Kind) → Blocked s → Post Blocked (operator s k)
unfolding operator
operator-Blocked k (base {c = left} h) = raises
operator-Blocked k (base {c = digit} h) = returns (more (base h))
operator-Blocked k (base {c = opt} h) = raises
operator-Blocked k twin = returns (more twin)
operator-Blocked k (more {c = left} h) = raises
operator-Blocked k (more {c = digit} h) = returns (more (more h))
operator-Blocked k (more {c = opt} h) = raises

close-Blocked : {s : List Cell} → Blocked s → Post Blocked (close s)
unfolding close
close-Blocked (base {c = left} h) = raises
close-Blocked (base {c = digit} h) = raises
close-Blocked (base {c = opt} h) = raises
close-Blocked twin = raises
close-Blocked (more {c = left} twin) = raises
close-Blocked (more {c = opt} twin) = raises
close-Blocked (more {c = digit} twin) = raises
close-Blocked (more {c = left} (base h)) = raises
close-Blocked (more {c = left} (more h)) = raises
close-Blocked (more {c = opt} (base h)) = raises
close-Blocked (more {c = opt} (more h)) = raises
close-Blocked (more {c = digit} (base {c = left} h)) = returns (base digit≢opt)
close-Blocked (more {c = digit} (base {c = digit} h)) = raises
close-Blocked (more {c = digit} (base {c = opt} h)) = raises
close-Blocked (more {c = digit} (more {c = left} h)) = returns (more h)
close-Blocked (more {c = digit} (more {c = digit} h)) = raises
close-Blocked (more {c = digit} (more {c = opt} h)) = raises

single_digit-Blocked : {s : List Cell} → Blocked s → Post (λ _. ⊥) (single_digit s)
unfolding single_digit
single_digit-Blocked (base {c = left} h) = raises
single_digit-Blocked (base {c = digit} h) = raises
single_digit-Blocked (base {c = opt} h) = raises
single_digit-Blocked twin = raises
single_digit-Blocked (more {c = left} h) = raises
single_digit-Blocked (more {c = opt} h) = raises
single_digit-Blocked (more {c = digit} (base h)) = raises
single_digit-Blocked (more {c = digit} twin) = raises
single_digit-Blocked (more {c = digit} (more h)) = raises

module _ {F : Type 0} where
  check_step-Blocked : {s : List Cell} (x : Node F) → Blocked s → Post Blocked (check_step s x)
  check_step-Blocked {s} x b = elim (Bool-cases (is_kind x.type kleft)) [
    | inl h ↦ rw (check_step-open s x h) (returns (more b))
    | inr p ↦ elim (Bool-cases (is_kind x.type kright)) [
      | inl h ↦ rw (check_step-close s x h) (close-Blocked b)
      | inr q ↦ elim (Bool-cases (is_four_type x.type)) [
        | inl h ↦ rw (check_step-operator s x h) (operator-Blocked x.type b)
        | inr r ↦ elim (Bool-cases (is_kind x.type kname || is_digit_type x.type)) [
          | inl h ↦ rw (check_step-operand s x h) (operand-Blocked b)
          | inr t ↦ rw (check_step-other s x p q r t) raises
        ]
      ]
    ]
  ]

  check_loop-Blocked :
      {s : List Cell} (xs : Expression F) → Blocked s → Post Blocked (check_loop s xs)
  unfolding check_loop
  check_loop-Blocked [] b = returns b
  check_loop-Blocked (x ∷ xs) b =
      Post-bind (check_step-Blocked x b) λ t h. check_loop-Blocked {s = t} xs h

  operator_open-Blocked :
      (s : List Cell) (o l : Node F) (q : Expression F)
      → IsOperator o
      → IsOpen l
      → Post Blocked (check_loop s (o ∷ l ∷ q))
  unfolding check_loop operator
  operator_open-Blocked [] o l q ho hl = rw (check_step-operator [] o ho) raises
  operator_open-Blocked (left ∷ s) o l q ho hl = rw (check_step-operator (left ∷ s) o ho) raises
  operator_open-Blocked (opt ∷ s) o l q ho hl = rw (check_step-operator (opt ∷ s) o ho) raises
  operator_open-Blocked (digit ∷ s) o l q ho hl =
      rw (check_step-operator (digit ∷ s) o ho, check_step-open (opt ∷ digit ∷ s) l hl)
        (check_loop-Blocked q (base λ e. cc))

  -- Two operands side by side, from a stack on which the first is pushed.
  operands-Blocked :
      (s : List Cell) (x y : Node F) (q : Expression F)
      → IsOperand x
      → IsOperand y
      → Ensures Blocked (check_loop s (x ∷ y ∷ q))
  unfolding check_loop operand
  operands-Blocked [] x y q hx hy =
      rw (check_step-operand [] x hx, check_step-operand (digit ∷ []) y hy)
        (Post-Ensures (check_loop-Blocked q twin))
  operands-Blocked (left ∷ s) x y q hx hy =
      rw (check_step-operand (left ∷ s) x hx, check_step-operand (digit ∷ left ∷ s) y hy)
        (Post-Ensures (check_loop-Blocked q twin))
  operands-Blocked (digit ∷ s) x y q hx hy =
      rw (check_step-operand (digit ∷ s) x hx, check_step-operand (digit ∷ digit ∷ s) y hy)
        (Post-Ensures (check_loop-Blocked q twin))
  operands-Blocked (opt ∷ []) x y q hx hy = rw (check_step-operand (opt ∷ []) x hx) crashed
  operands-Blocked (opt ∷ a ∷ s) x y q hx hy =
      rw (check_step-operand (opt ∷ a ∷ s) x hx, check_step-operand (digit ∷ s) y hy)
        (Post-Ensures (check_loop-Blocked q twin))

  prefix-Blocked :
      (s : List Cell) (p q : Expression F)
      → ((t : List Cell) → Ensures Blocked (check_loop t q))
      → Ensures (λ _. ⊥) (check_loop s (p ++ q) >>= single_digit)
  unfolding check_loop
  prefix-Blocked s [] q h = Ensures-bind (h s) λ t b. Post-Ensures (single_digit-Blocked b)
  prefix-Blocked s (x ∷ p) q h =
      rw bind_assoc (Ensures-bind (Ensures-trivial (check_step s x)) λ t _. prefix-Blocked t p q h)

  -- An expression in which a left bracket follows an operator is refused, wherever the two stand.
  pub check_expression-operator_bracket :
      (p q : Expression F) (o l : Node F)
      → IsOperator o
      → IsOpen l
      → check_expression (p ++ (o ∷ l ∷ q)) ≢ ok tt
  unfolding check_expression
  check_expression-operator_bracket p q o l ho hl =
      Ensures-eq
        (prefix-Blocked [] p (o ∷ l ∷ q) λ t. Post-Ensures (operator_open-Blocked t o l q ho hl))

  -- An expression in which an operand follows an operand is refused, wherever the two stand.
  pub check_expression-operands :
      (p q : Expression F) (x y : Node F)
      → IsOperand x
      → IsOperand y
      → check_expression (p ++ (x ∷ y ∷ q)) ≢ ok tt
  unfolding check_expression
  check_expression-operands p q x y hx hy =
      Ensures-eq (prefix-Blocked [] p (x ∷ y ∷ q) λ t. operands-Blocked t x y q hx hy)
