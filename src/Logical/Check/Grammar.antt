-- ===== src/Logical/Check/Grammar.antt =====
-- The language of conditions, and what the stack of `check_logical` says of the nodes read: units joined
-- by `and` and `or`, a unit being a comparison, a LIKE or a bracketed condition. Neither operator binds
-- tighter.
use stoxdb.Prelude.{List, [], ◌∷◌, ◌++◌, true, ◌≡◌, refl, ◌⊎◌, subst, append_assoc}
use stoxdb.Outcome.{Outcome, ok, Post, returns, raises}
use stoxdb.Expression.{kleft, kright, is_kind, is_compare_type, is_like_type, is_logical_type}
use stoxdb.Logical.{LogicalNode, Logical}
use stoxdb.Logical.Check.{
  Cell, left, opt, expr, push_expr, close, operator, operand, check_compare, check_like,
}

-- No operator waits on top.
abbrev pub NoOperator : List Cell → Type 0
NoOperator (opt ∷ s) = ⊥
NoOperator _ = Unit {0}

pub push_expr-NoOperator : (s : List Cell) → NoOperator s → push_expr s ≡ expr ∷ s
unfolding push_expr
push_expr-NoOperator [] n = refl
push_expr-NoOperator (left ∷ s) n = refl
push_expr-NoOperator (expr ∷ s) n = refl
push_expr-NoOperator (opt ∷ s) n = absurd n

module _ {F : Type 0} where
  abbrev pub IsOpen : LogicalNode F → Type 0
  IsOpen x = is_kind x.type kleft ≡ true

  abbrev pub IsClose : LogicalNode F → Type 0
  IsClose x = is_kind x.type kright ≡ true

  abbrev pub IsJunction : LogicalNode F → Type 0
  IsJunction x = is_logical_type x.type ≡ true

  -- A comparison or a LIKE whose operands are in order.
  abbrev pub IsAtom : LogicalNode F → Type 0
  IsAtom x =
      ((is_compare_type x.type ≡ true) × (check_compare x ≡ ok tt))
      ⊎ ((is_like_type x.type ≡ true) × (check_like x ≡ ok tt))

  mutual
    pub data Cond : Logical F → Type 0 where
      unit : {ts : Logical F} → CondUnit ts → Cond ts
      chain :
          {ts : Logical F} (e : Logical F) (o : LogicalNode F) (u : Logical F)
          → Cond e
          → IsJunction o
          → CondUnit u
          → ts ≡ e ++ (o ∷ u)
          → Cond ts

    pub data CondUnit : Logical F → Type 0 where
      atom : {ts : Logical F} (x : LogicalNode F) → IsAtom x → ts ≡ x ∷ [] → CondUnit ts
      bracket :
          {ts : Logical F} (l r : LogicalNode F) (e : Logical F)
          → IsOpen l
          → IsClose r
          → Cond e
          → ts ≡ l ∷ (e ++ r ∷ [])
          → CondUnit ts

  -- What the stack says of the nodes that were read.
  pub data Holds : List Cell → Logical F → Type 0 where
    empty : {p : Logical F} → p ≡ [] → Holds [] p
    opened :
        {s : List Cell} {p : Logical F} (q : Logical F) (l : LogicalNode F)
        → Holds s q
        → IsOpen l
        → p ≡ q ++ l ∷ []
        → Holds (left ∷ s) p
    value :
        {s : List Cell} {p : Logical F} (q e : Logical F)
        → Holds s q
        → NoOperator s
        → Cond e
        → p ≡ q ++ e
        → Holds (expr ∷ s) p
    pending :
        {s : List Cell} {p : Logical F} (q e : Logical F) (o : LogicalNode F)
        → Holds s q
        → NoOperator s
        → Cond e
        → IsJunction o
        → p ≡ (q ++ e) ++ o ∷ []
        → Holds (opt ∷ expr ∷ s) p

  -- A unit behind the nodes that the stack stands for.
  push_expr-Holds :
      {s : List Cell} {p : Logical F} (u : Logical F)
      → Holds s p
      → CondUnit u
      → Holds (push_expr s) (p ++ u)
  unfolding push_expr
  push_expr-Holds u (empty e) h = value _ u (empty e) tt (unit h) refl
  push_expr-Holds u (opened q l hs hl e) h = value _ u (opened q l hs hl e) tt (unit h) refl
  push_expr-Holds u (value q e hs n c ep) h = value _ u (value q e hs n c ep) tt (unit h) refl
  push_expr-Holds u (pending q e o hs n c ho ep) h =
      value q (e ++ (o ∷ u)) hs n (chain e o u c ho h refl) (simp (ep, append_assoc))

  -- On the stacks that arise, popping an operator and its left operand first changes nothing.
  operand-push_expr : {s : List Cell} {p : Logical F} → Holds s p → operand s ≡ ok (push_expr s)
  unfolding operand push_expr
  operand-push_expr (empty e) = refl
  operand-push_expr (opened q l hs hl e) = refl
  operand-push_expr (value q e hs n c ep) = refl
  operand-push_expr (pending {s = s} q e o hs n c ho ep) = rw (push_expr-NoOperator s n)

  abbrev pub After : Logical F → LogicalNode F → Outcome (List Cell) → Type 0
  After p x = Post (λ t. Holds t (p ++ x ∷ []))

  pub atom-Holds :
      {s : List Cell} {p : Logical F} (x : LogicalNode F)
      → Holds s p
      → IsAtom x
      → After p x (operand s)
  atom-Holds x hs h =
      rw (operand-push_expr hs) (returns (push_expr-Holds (x ∷ []) hs (atom x h refl)))

  pub operator-Holds :
      {s : List Cell} {p : Logical F} (x : LogicalNode F)
      → Holds s p
      → IsJunction x
      → After p x (operator s x.type)
  unfolding operator
  operator-Holds x (value q e hs n c ep) h = returns (pending q e x hs n c h (simp ep))
  operator-Holds x (empty e) h = raises
  operator-Holds x (opened q l hs hl e) h = raises
  operator-Holds x (pending q e o hs n c ho ep) h = raises

  close_value-Holds :
      {s : List Cell} {p q : Logical F} (x : LogicalNode F) (e : Logical F)
      → Holds s q
      → Cond e
      → IsClose x
      → p ≡ q ++ e
      → After p x (close (expr ∷ s))
  unfolding close
  close_value-Holds x e (empty eq) c h ep = raises
  close_value-Holds x e (opened q l hs hl eq) c h ep = returns (
      subst (Holds (push_expr _)) (simp (ep, eq, append_assoc))
        (push_expr-Holds (l ∷ (e ++ x ∷ [])) hs (bracket l x e hl h c refl)))
  close_value-Holds x e (value q f hs n c' eq) c h ep = raises
  close_value-Holds x e (pending q f o hs n c' ho eq) c h ep = raises

  pub close-Holds :
      {s : List Cell} {p : Logical F} (x : LogicalNode F)
      → Holds s p
      → IsClose x
      → After p x (close s)
  unfolding close
  close-Holds x (empty e) h = raises
  close-Holds x (value q e hs n c ep) h = close_value-Holds x e hs c h ep
  close-Holds x (opened q l (empty _) hl e) h = raises
  close-Holds x (opened q l (opened _ _ _ _ _) hl e) h = raises
  close-Holds x (opened q l (value _ _ _ _ _ _) hl e) h = raises
  close-Holds x (opened q l (pending _ _ _ _ _ _ _ _) hl e) h = raises
  close-Holds x (pending q e o hs n c ho ep) h = raises
