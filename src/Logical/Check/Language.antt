-- ===== src/Logical/Check/Language.antt =====
-- `check_logical` against the language of conditions.
use stoxdb.Prelude.{
  List, [], ◌∷◌, ◌++◌, true, false, ◌&&◌, ◌≡◌, refl, ◌↔◌, inl, inr, Bool-cases, arith, append_assoc,
  append-nil,
}
use stoxdb.Outcome.{
  Outcome, ok, err, ◌>>=◌, Message, Post, returns, raises, Post-eq, Post-bind, Post-if,
}
use stoxdb.Expression.{
  kleft, kright, kname, kchar, ordinal, is_kind, is_compare_type, is_like_type, is_logical_type,
  Expression,
}
use stoxdb.Expression.Check.Grammar.{check_expression-Accepted}
use stoxdb.Logical.{LogicalNode, Logical}
use stoxdb.Logical.Check.{
  Cell, left, opt, expr, push_expr, close, operator, operand, is_single, relabel, check_side,
  check_compare, check_like, check_step, check_loop, single_expr, check_logical,
}
use stoxdb.Logical.Check.Grammar.{
  IsOpen, IsClose, IsJunction, IsAtom, Cond, unit, chain, CondUnit, atom, bracket, NoOperator,
  push_expr-NoOperator, Holds, empty, opened, value, pending, After, atom-Holds, operator-Holds,
  close-Holds,
}

operand_plain : (s : List Cell) → NoOperator s → operand s ≡ ok (push_expr s)
unfolding operand
operand_plain [] n = refl
operand_plain (left ∷ s) n = refl
operand_plain (expr ∷ s) n = refl
operand_plain (opt ∷ s) n = absurd n

operand_merge :
    (s : List Cell) → NoOperator s → operand (opt ∷ expr ∷ s) ≡ ok (push_expr (opt ∷ expr ∷ s))
unfolding operand push_expr
operand_merge s n = rw (push_expr-NoOperator s n)

relabel-Post :
    {P : Unit {0} → Type 0} {r : Outcome (Unit {0})} (m : Message)
    → Post P r
    → Post (λ _. Unit {0}) (relabel m r)
unfolding relabel
relabel-Post m (returns h) = returns tt
relabel-Post m raises = raises

-- A check that ends can be repeated with the same answer.
Post-self : {P : Unit {0} → Type 0} {r : Outcome (Unit {0})} → Post P r → Post (λ _. r ≡ ok tt) r
Post-self (returns h) = returns refl
Post-self raises = raises

module _ {F : Type 0} where
  check_side-Post : (m : Message) (ex : Expression F) → Post (λ _. Unit {0}) (check_side m ex)
  unfolding check_side
  check_side-Post m ex = relabel-Post m (check_expression-Accepted ex)

  check_compare-total : (x : LogicalNode F) → Post (λ _. Unit {0}) (check_compare x)
  unfolding check_compare
  check_compare-total x = Post-if (is_single kname x.left && is_single kchar x.right) (returns tt) (
      Post-bind (check_side-Post Message.left_invalid x.left)
        λ _ _. check_side-Post Message.right_invalid x.right)

  check_like-total : (x : LogicalNode F) → Post (λ _. Unit {0}) (check_like x)
  unfolding check_like
  check_like-total x =
      Post-if (is_single kname x.left) (Post-if (is_single kchar x.right) (returns tt) raises)
        raises

  check_compare-Post : (x : LogicalNode F) → Post (λ _. check_compare x ≡ ok tt) (check_compare x)
  check_compare-Post x = Post-self (check_compare-total x)

  check_like-Post : (x : LogicalNode F) → Post (λ _. check_like x ≡ ok tt) (check_like x)
  check_like-Post x = Post-self (check_like-total x)

  check_step-open : (s : List Cell) (x : LogicalNode F) → IsOpen x → check_step s x ≡ ok (left ∷ s)
  unfolding check_step
  check_step-open s x h = rw h

  check_step-close : (s : List Cell) (x : LogicalNode F) → IsClose x → check_step s x ≡ close s
  unfolding check_step is_kind
  check_step-close s x h = ground arith

  check_step-operator :
      (s : List Cell) (x : LogicalNode F) → IsJunction x → check_step s x ≡ operator s x.type
  unfolding check_step is_kind is_logical_type
  check_step-operator s x h = ground arith

  check_step-compare :
      (s : List Cell) (x : LogicalNode F)
      → is_compare_type x.type ≡ true
      → check_step s x ≡ (check_compare x >>= λ _. operand s)
  unfolding check_step is_kind is_logical_type is_compare_type
  check_step-compare s x h = ground arith

  check_step-like :
      (s : List Cell) (x : LogicalNode F)
      → is_like_type x.type ≡ true
      → check_step s x ≡ (check_like x >>= λ _. operand s)
  unfolding check_step is_kind is_logical_type is_compare_type is_like_type
  check_step-like s x h = ground arith

  check_step-atom : (s : List Cell) (x : LogicalNode F) → IsAtom x → check_step s x ≡ operand s
  check_step-atom s x (inl h) = rw (check_step-compare s x h.0, h.1)
  check_step-atom s x (inr h) = rw (check_step-like s x h.0, h.1)

  check_step-other :
      (s : List Cell) (x : LogicalNode F)
      → is_kind x.type kleft ≡ false
      → is_kind x.type kright ≡ false
      → is_logical_type x.type ≡ false
      → is_compare_type x.type ≡ false
      → is_like_type x.type ≡ false
      → check_step s x ≡ err (Message.not_logical_type (ordinal x.type))
  unfolding check_step
  check_step-other s x a b c d e = rw (a, b, c, d, e)

  check_step-Holds :
      {s : List Cell} {p : Logical F} (x : LogicalNode F) → Holds s p → After p x (check_step s x)
  check_step-Holds {s} {p} x hs = elim (Bool-cases (is_kind x.type kleft)) [
    | inl h ↦ rw (check_step-open s x h) (returns (opened p x hs h refl))
    | inr a ↦ elim (Bool-cases (is_kind x.type kright)) [
      | inl h ↦ rw (check_step-close s x h) (close-Holds x hs h)
      | inr b ↦ elim (Bool-cases (is_logical_type x.type)) [
        | inl h ↦ rw (check_step-operator s x h) (operator-Holds x hs h)
        | inr c ↦ elim (Bool-cases (is_compare_type x.type)) [
          | inl h ↦
              rw (check_step-compare s x h)
                (Post-bind (check_compare-Post x) λ _ k. atom-Holds x hs (inl (h, k)))
          | inr d ↦ elim (Bool-cases (is_like_type x.type)) [
            | inl h ↦
                rw (check_step-like s x h)
                  (Post-bind (check_like-Post x) λ _ k. atom-Holds x hs (inr (h, k)))
            | inr e ↦ rw (check_step-other s x a b c d e) raises
          ]
        ]
      ]
    ]
  ]

  check_loop-Holds :
      {s : List Cell} {p : Logical F} (xs : Logical F)
      → Holds s p
      → Post (λ t. Holds t (p ++ xs)) (check_loop s xs)
  unfolding check_loop
  check_loop-Holds {s} {p} [] hs = returns (rw append-nil hs)
  check_loop-Holds {s} {p} (x ∷ xs) hs =
      Post-bind (check_step-Holds x hs)
        λ t ht. rw append_assoc at (check_loop-Holds {s = t} {p = p ++ x ∷ []} xs ht)

  single_expr-Cond :
      {s : List Cell} {p : Logical F} → Holds s p → Post (λ _. Cond p) (single_expr s)
  unfolding single_expr
  single_expr-Cond (value q e (empty eq) n c ep) = returns (rw (ep, eq) c)
  single_expr-Cond (value q e (opened _ _ _ _ _) n c ep) = raises
  single_expr-Cond (value q e (value _ _ _ _ _ _) n c ep) = raises
  single_expr-Cond (value q e (pending _ _ _ _ _ _ _ _) n c ep) = raises
  single_expr-Cond (empty e) = raises
  single_expr-Cond (opened _ _ _ _ _) = raises
  single_expr-Cond (pending _ _ _ _ _ _ _ _) = raises

  -- Whatever the nodes, `check_logical` ends with `true` or with `false`, and pops no empty stack; if
  -- it ends with `true`, the nodes are a condition of the language.
  pub check_logical-Cond : (lg : Logical F) → Post (λ _. Cond lg) (check_logical lg)
  unfolding check_logical
  check_logical-Cond lg =
      Post-bind (check_loop-Holds {s = []} {p = []} lg (empty refl)) λ t ht. single_expr-Cond ht

  mutual
    unfolding check_loop operator operand close push_expr

    check_loop-Cond :
        {e : Logical F} (s : List Cell) (rest : Logical F)
        → NoOperator s
        → Cond e
        → check_loop s (e ++ rest) ≡ check_loop (expr ∷ s) rest
    check_loop-Cond s rest n (unit u) =
        rw (check_loop-CondUnit s rest u (operand_plain s n), push_expr-NoOperator s n)
    check_loop-Cond s rest n (chain e o u c ho h eq) = rw (
      eq,
      append_assoc,
      check_loop-Cond s (o ∷ (u ++ rest)) n c,
      check_step-operator (expr ∷ s) o ho,
      check_loop-CondUnit (opt ∷ expr ∷ s) rest h (operand_merge s n),
    )

    check_loop-CondUnit :
        {u : Logical F} (s : List Cell) (rest : Logical F)
        → CondUnit u
        → operand s ≡ ok (push_expr s)
        → check_loop s (u ++ rest) ≡ check_loop (push_expr s) rest
    check_loop-CondUnit s rest (atom x h eq) e = rw (eq, check_step-atom s x h, e)
    check_loop-CondUnit s rest (bracket l r ex hl hr c eq) e = rw (
      eq,
      check_step-open s l hl,
      append_assoc,
      check_loop-Cond (left ∷ s) (r ∷ rest) tt c,
      check_step-close (expr ∷ left ∷ s) r hr,
    )

  -- `check_logical` answers `true` exactly for the conditions of the language.
  pub check_logical_iff : (lg : Logical F) → (check_logical lg ≡ ok tt) ↔ Cond lg
  unfolding check_logical single_expr check_loop
  check_logical_iff lg =
      (Post-eq (check_logical-Cond lg), λ c. rw (← append-nil lg, check_loop-Cond [] [] tt c))
