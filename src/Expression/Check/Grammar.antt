-- ===== src/Expression/Check/Grammar.antt =====
-- The language that `check_expression` accepts, as an inductive family, and what is on its stack.
use stoxdb.Prelude.{
  List, [], ◌∷◌, ◌++◌, true, false, ◌||◌, ◌≡◌, refl, arith, append_assoc, append-nil, ◌↔◌, inl, inr,
  Bool-cases,
}
use stoxdb.Outcome.{Outcome, ok, err, Message, Post, returns, raises, Post-eq, Post-bind}
use stoxdb.Expression.{
  kleft, kright, kname, ordinal, is_kind, is_four_type, is_digit_type, Node, Expression,
}
use stoxdb.Expression.Check.{
  Cell, left, opt, digit, close, operator, operand, check_step, check_loop, single_digit,
  check_expression,
}

abbrev NoOperator : List Cell → Type 0
NoOperator (opt ∷ s) = ⊥
NoOperator _ = Unit {0}

operand-NoOperator : (s : List Cell) → NoOperator s → operand s ≡ ok (digit ∷ s)
unfolding operand
operand-NoOperator [] h = refl
operand-NoOperator (left ∷ s) h = refl
operand-NoOperator (digit ∷ s) h = refl
operand-NoOperator (opt ∷ s) h = absurd h

module _ {F : Type 0} where
  -- The five shapes of node that the check tells apart, by the tests of the source.
  abbrev pub IsOpen : Node F → Type 0
  IsOpen x = is_kind x.type kleft ≡ true

  abbrev pub IsClose : Node F → Type 0
  IsClose x = is_kind x.type kright ≡ true

  abbrev pub IsOperator : Node F → Type 0
  IsOperator x = is_four_type x.type ≡ true

  abbrev pub IsOperand : Node F → Type 0
  IsOperand x = (is_kind x.type kname || is_digit_type x.type) ≡ true

  -- An operand, a bracketed expression, or an expression, an operator and an operand: the right
  -- operand of an operator is never bracketed.
  pub data Accepted : Expression F → Type 0 where
    atom : {ts : Expression F} (x : Node F) → IsOperand x → ts ≡ x ∷ [] → Accepted ts
    bracket :
        {ts : Expression F} (l r : Node F) (e : Expression F)
        → IsOpen l
        → IsClose r
        → Accepted e
        → ts ≡ l ∷ (e ++ r ∷ [])
        → Accepted ts
    binary :
        {ts : Expression F} (e : Expression F) (o x : Node F)
        → Accepted e
        → IsOperator o
        → IsOperand x
        → ts ≡ e ++ (o ∷ x ∷ [])
        → Accepted ts

  -- What the stack says of the nodes that were read: unclosed brackets, the accepted expression
  -- that a digit stands for, and an operator only above a digit.
  data Holds : List Cell → Expression F → Type 0 where
    empty : {p : Expression F} → p ≡ [] → Holds [] p
    opened :
        {s : List Cell} {p : Expression F} (q : Expression F) (l : Node F)
        → Holds s q
        → IsOpen l
        → p ≡ q ++ l ∷ []
        → Holds (left ∷ s) p
    value :
        {s : List Cell} {p : Expression F} (q e : Expression F)
        → Holds s q
        → Accepted e
        → p ≡ q ++ e
        → Holds (digit ∷ s) p
    pending :
        {s : List Cell} {p : Expression F} (q e : Expression F) (o : Node F)
        → Holds s q
        → Accepted e
        → IsOperator o
        → p ≡ (q ++ e) ++ o ∷ []
        → Holds (opt ∷ digit ∷ s) p

  pub check_step-open : (s : List Cell) (x : Node F) → IsOpen x → check_step s x ≡ ok (left ∷ s)
  unfolding check_step
  check_step-open s x h = ground arith

  pub check_step-close : (s : List Cell) (x : Node F) → IsClose x → check_step s x ≡ close s
  unfolding check_step is_kind
  check_step-close s x h = ground arith

  pub check_step-operator :
      (s : List Cell) (x : Node F) → IsOperator x → check_step s x ≡ operator s x.type
  unfolding check_step is_kind is_four_type
  check_step-operator s x h = ground arith

  pub check_step-operand : (s : List Cell) (x : Node F) → IsOperand x → check_step s x ≡ operand s
  unfolding check_step is_kind is_four_type is_digit_type
  check_step-operand s x h = ground arith

  -- What a step leaves after the nodes `p` and the node `x`.
  abbrev After : Expression F → Node F → Outcome (List Cell) → Type 0
  After p x = Post (λ t. Holds t (p ++ x ∷ []))

  operand-Holds :
      {s : List Cell} {p : Expression F} (x : Node F)
      → Holds s p
      → IsOperand x
      → After p x (operand s)
  unfolding operand
  operand-Holds x (empty e) h = returns (value [] (x ∷ []) (empty refl) (atom x h refl) (simp e))
  operand-Holds x (opened q l hs hl e) h =
      returns (value _ (x ∷ []) (opened q l hs hl e) (atom x h refl) refl)
  operand-Holds x (value q e hs acc eq) h =
      returns (value _ (x ∷ []) (value q e hs acc eq) (atom x h refl) refl)
  operand-Holds x (pending q e o hs acc ho eq) h =
      returns
        (value q (e ++ (o ∷ x ∷ [])) hs (binary e o x acc ho h refl) (simp (eq, append_assoc)))

  operator-Holds :
      {s : List Cell} {p : Expression F} (x : Node F)
      → Holds s p
      → IsOperator x
      → After p x (operator s x.type)
  unfolding operator
  operator-Holds x (value q e hs acc eq) h = returns (pending q e x hs acc h (simp eq))
  operator-Holds x (empty e) h = raises
  operator-Holds x (opened q l hs hl e) h = raises
  operator-Holds x (pending q e o hs acc ho eq) h = raises

  close_value-Holds :
      {s : List Cell} {p q : Expression F} (x : Node F) (e : Expression F)
      → Holds s q
      → Accepted e
      → IsClose x
      → p ≡ q ++ e
      → After p x (close (digit ∷ s))
  unfolding close
  close_value-Holds x e (empty eq) acc h ep = raises
  close_value-Holds x e (opened q l hs hl eq) acc h ep =
      returns
        (value q (l ∷ (e ++ x ∷ [])) hs (bracket l x e hl h acc refl) (simp (ep, eq, append_assoc)))
  close_value-Holds x e (value q f hs acc' eq) acc h ep = raises
  close_value-Holds x e (pending q f o hs acc' ho eq) acc h ep = raises

  close-Holds :
      {s : List Cell} {p : Expression F} (x : Node F) → Holds s p → IsClose x → After p x (close s)
  unfolding close
  close-Holds x (empty e) h = raises
  close-Holds x (value q e hs acc eq) h = close_value-Holds x e hs acc h eq
  close-Holds x (opened q l (empty _) hl e) h = raises
  close-Holds x (opened q l (opened _ _ _ _ _) hl e) h = raises
  close-Holds x (opened q l (value _ _ _ _ _) hl e) h = raises
  close-Holds x (opened q l (pending _ _ _ _ _ _ _) hl e) h = raises
  close-Holds x (pending q e o hs acc ho eq) h = raises

  -- Any node that is none of the five is refused.
  pub check_step-other :
      (s : List Cell) (x : Node F)
      → is_kind x.type kleft ≡ false
      → is_kind x.type kright ≡ false
      → is_four_type x.type ≡ false
      → (is_kind x.type kname || is_digit_type x.type) ≡ false
      → check_step s x ≡ err (Message.unsupported_type (ordinal x.type))
  unfolding check_step
  check_step-other s x a b c d = rw (a, b, c, d)

  check_step-Holds :
      {s : List Cell} {p : Expression F} (x : Node F) → Holds s p → After p x (check_step s x)
  check_step-Holds {s} {p} x hs = elim (Bool-cases (is_kind x.type kleft)) [
    | inl h ↦ rw (check_step-open s x h) (returns (opened p x hs h refl))
    | inr a ↦ elim (Bool-cases (is_kind x.type kright)) [
      | inl h ↦ rw (check_step-close s x h) (close-Holds x hs h)
      | inr b ↦ elim (Bool-cases (is_four_type x.type)) [
        | inl h ↦ rw (check_step-operator s x h) (operator-Holds x hs h)
        | inr c ↦ elim (Bool-cases (is_kind x.type kname || is_digit_type x.type)) [
          | inl h ↦ rw (check_step-operand s x h) (operand-Holds x hs h)
          | inr d ↦ rw (check_step-other s x a b c d) raises
        ]
      ]
    ]
  ]

  check_loop-Holds :
      {s : List Cell} {p : Expression F} (xs : Expression F)
      → Holds s p
      → Post (λ t. Holds t (p ++ xs)) (check_loop s xs)
  unfolding check_loop
  check_loop-Holds {s} {p} [] hs = returns (rw append-nil hs)
  check_loop-Holds {s} {p} (x ∷ xs) hs =
      Post-bind (check_step-Holds x hs)
        λ t ht. rw append_assoc at (check_loop-Holds {s = t} {p = p ++ x ∷ []} xs ht)

  single_digit-Accepted :
      {s : List Cell} {p : Expression F} → Holds s p → Post (λ _. Accepted p) (single_digit s)
  unfolding single_digit
  single_digit-Accepted (value q e (empty eq) acc ep) = returns (rw (ep, eq) acc)
  single_digit-Accepted (value q e (opened _ _ _ _ _) acc ep) = raises
  single_digit-Accepted (value q e (value _ _ _ _ _) acc ep) = raises
  single_digit-Accepted (value q e (pending _ _ _ _ _ _ _) acc ep) = raises
  single_digit-Accepted (empty e) = raises
  single_digit-Accepted (opened _ _ _ _ _) = raises
  single_digit-Accepted (pending _ _ _ _ _ _ _) = raises

  -- Whatever the nodes, `check_expression` ends with `true` or with `false`, and pops no empty
  -- stack; if it ends with `true`, the nodes are an expression of the language.
  pub check_expression-Accepted :
      (ex : Expression F) → Post (λ _. Accepted ex) (check_expression ex)
  unfolding check_expression
  check_expression-Accepted ex =
      Post-bind (check_loop-Holds {s = []} {p = []} ex (empty refl))
        λ t ht. single_digit-Accepted ht

  -- An accepted expression pushes one digit, whatever follows it, unless an operator waits.
  check_loop-Accepted :
      {ex : Expression F} (s : List Cell) (rest : Expression F)
      → NoOperator s
      → Accepted ex
      → check_loop s (ex ++ rest) ≡ check_loop (digit ∷ s) rest
  unfolding check_loop operator operand close
  check_loop-Accepted s rest n (atom x h e) =
      rw (e, check_step-operand s x h, operand-NoOperator s n)
  check_loop-Accepted s rest n (bracket l r ex hl hr acc e) = rw (
    e,
    check_step-open s l hl,
    append_assoc,
    check_loop-Accepted (left ∷ s) (r ∷ rest) tt acc,
    check_step-close _ r hr,
  )
  check_loop-Accepted s rest n (binary ex o x acc ho hx e) = rw (
    e,
    append_assoc,
    check_loop-Accepted s (o ∷ x ∷ rest) n acc,
    check_step-operator (digit ∷ s) o ho,
    check_step-operand (opt ∷ digit ∷ s) x hx,
  )

  -- `check_expression` answers `true` exactly for the expressions of the language.
  pub check_expression_iff : (ex : Expression F) → (check_expression ex ≡ ok tt) ↔ Accepted ex
  unfolding check_expression single_digit check_loop
  check_expression_iff ex = (
    Post-eq (check_expression-Accepted ex),
    λ acc. rw (← append-nil ex, check_loop-Accepted [] [] tt acc),
  )
