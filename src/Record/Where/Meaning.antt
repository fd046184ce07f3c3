-- ===== src/Record/Where/Meaning.antt =====
-- What a checked condition means, and the marks of `compute_logical` while it is computed.
use Prim.Native.Nat.{max}
use stoxdb.Prelude.{
  ℕ, ◌+◌, ◌*◌, ◌≤◌, ◌<◌, List, [], ◌∷◌, ◌++◌, Bool, true, ◌&&◌, ◌||◌, ◌≡◌, refl, ap, ◌∙◌, ◌⊎◌, inl,
  inr, if◌then◌else◌, length, arith, append_assoc, append-nil, lt→ltb, some, Bool-cases,
}
use stoxdb.Outcome.{Outcome, ok, err, ub, hang, ◌>>=◌, bind_assoc, bind_congr}
use stoxdb.Expression.{kand, kleft, is_kind, is_compare_type, is_like_type, is_logical_type}
use stoxdb.Logical.{LogicalNode, Logical}
use stoxdb.Logical.Check.Grammar.{
  IsOpen, IsClose, IsJunction, IsAtom, Cond, unit, chain, CondUnit, atom, bracket,
}
use stoxdb.Record.Where.{
  Mark, paren, all, any, truth, stack_room, push_mark, put_stack, close_stack, answer, compute_step,
  compute_loop,
}

-- The brackets of a condition that are opened.
unfoldable pub brackets : {F : Type 0} → Logical F → ℕ
brackets [] = 0
brackets (x ∷ xs) = (if is_kind x.type kleft then 1 else 0) + brackets xs

-- Every node is a left bracket.
abbrev pub AllOpen : {F : Type 0} → Logical F → Type 0
AllOpen [] = Unit {0}
AllOpen (x ∷ xs) = IsOpen x × AllOpen xs

-- No AND or OR waits on top.
abbrev Closed : List Mark → Type 0
Closed (all ∷ s) = ⊥
Closed (any ∷ s) = ⊥
Closed _ = Unit {0}

push_mark-room : (s : List Mark) (c : Mark) → length s < stack_room → push_mark s c ≡ ok (c ∷ s)
unfolding push_mark
push_mark-room s c h = rw (lt→ltb (length s) stack_room h)

put_stack-Closed :
    (s : List Mark) (c : Mark) → Closed s → length s < stack_room → put_stack s c ≡ ok (c ∷ s)
unfolding put_stack
put_stack-Closed [] c k h = push_mark-room [] c h
put_stack-Closed (paren ∷ s) c k h = push_mark-room (paren ∷ s) c h
put_stack-Closed (truth b ∷ s) c k h = push_mark-room (truth b ∷ s) c h
put_stack-Closed (all ∷ s) c k h = absurd k
put_stack-Closed (any ∷ s) c k h = absurd k

module _ {F : Type 0} where
  brackets-append : (xs ys : Logical F) → brackets (xs ++ ys) ≡ brackets xs + brackets ys
  unfolding brackets
  brackets-append [] ys = omega arith
  brackets-append (x ∷ xs) ys = omega (arith, brackets-append xs ys)

  -- The mark and the truth function of a junction.
  abbrev junction_mark : LogicalNode F → Mark
  junction_mark o = if is_kind o.type kand then all else any

  abbrev pub join_truth : LogicalNode F → Bool → Bool → Bool
  join_truth o a b = if is_kind o.type kand then a && b else a || b

  -- The marks that a condition needs at once.
  mutual
    need : {ts : Logical F} → Cond ts → ℕ
    need (unit u) = need_unit u
    need (chain e o u c ho h eq) = max (need c) (2 + need_unit h)

    need_unit : {ts : Logical F} → CondUnit ts → ℕ
    need_unit (atom x h eq) = 1
    need_unit (bracket l r e hl hr c eq) = 1 + need c

module _ {F : Type 0} (holds : LogicalNode F → Outcome Bool) where
  -- The value of a condition: its units from left to right, joined as the operators say, with no
  -- precedence between `and` and `or`. A unit whose comparison fails fails the whole.
  unfoldable mutual
    pub eval_cond : {ts : Logical F} → Cond ts → Outcome Bool
    eval_cond (unit u) = eval_unit u
    eval_cond (chain e o u c ho h eq) =
        eval_cond c >>= λ a. eval_unit h >>= λ b. ok (join_truth o a b)

    pub eval_unit : {ts : Logical F} → CondUnit ts → Outcome Bool
    eval_unit (atom x h eq) = holds x
    eval_unit (bracket l r e hl hr c eq) = eval_cond c

  pub step_open :
      (s : List Mark) (x : LogicalNode F)
      → IsOpen x
      → length s < stack_room
      → compute_step holds s x ≡ ok (some (paren ∷ s))
  unfolding compute_step
  step_open s x h k = rw (h, push_mark-room s paren k)

  step_close :
      (s : List Mark) (x : LogicalNode F)
      → IsClose x
      → compute_step holds s x ≡ (close_stack s >>= λ t. ok (some t))
  unfolding compute_step is_kind
  step_close s x h = ground arith

  step_junction :
      (s : List Mark) (x : LogicalNode F)
      → IsJunction x
      → compute_step holds s x ≡ (push_mark s (junction_mark x) >>= λ t. ok (some t))
  unfolding compute_step is_kind is_logical_type
  step_junction s x h = ground arith

  step_test :
      (s : List Mark) (x : LogicalNode F)
      → is_compare_type x.type ≡ true ⊎ is_like_type x.type ≡ true
      → compute_step holds s x ≡ (holds x >>= λ b. put_stack s (truth b) >>= λ t. ok (some t))
  unfolding compute_step is_kind is_compare_type is_like_type
  step_test s x (inl h) = ground arith
  step_test s x (inr h) = ground arith

  step_atom :
      (s : List Mark) (x : LogicalNode F)
      → IsAtom x
      → compute_step holds s x ≡ (holds x >>= λ b. put_stack s (truth b) >>= λ t. ok (some t))
  step_atom s x (inl h) = step_test s x (inl h.0)
  step_atom s x (inr h) = step_test s x (inr h.0)

  need-pos : {ts : Logical F} (c : Cond ts) → 0 < need c
  unfolding need
  need-pos (unit (atom x h eq)) = omega arith
  need-pos (unit (bracket l r e hl hr c eq)) = omega arith
  need-pos (chain e o u c ho h eq) = omega arith

  junction_mark-room :
      (s : List Mark) (o : LogicalNode F)
      → length s < stack_room
      → push_mark s (junction_mark o) ≡ ok (junction_mark o ∷ s)
  junction_mark-room s o h = push_mark-room s (junction_mark o) h

  put_stack-junction :
      (o : LogicalNode F) (a b : Bool) (s : List Mark)
      → put_stack (junction_mark o ∷ truth a ∷ s) (truth b) ≡ put_stack s (truth (join_truth o a b))
  put_stack-junction o a b s = elim (Bool-cases (is_kind o.type kand)) [
    | inl h ↦ rw h (unfold put_stack in refl)
    | inr h ↦ rw h (unfold put_stack in refl)
  ]

  bracket-append :
      (l : LogicalNode F) (e : Logical F) (r : LogicalNode F) (rest : Logical F)
      → (l ∷ (e ++ r ∷ [])) ++ rest ≡ l ∷ (e ++ r ∷ rest)
  bracket-append l e r rest = ap (l ∷◌) (append_assoc e (r ∷ []) rest)

  loop_bracket :
      (s : List Mark) (l : LogicalNode F) (e : Logical F) (r : LogicalNode F) (rest : Logical F)
      (m : Outcome Bool)
      → IsOpen l
      → IsClose r
      → length s < stack_room
      → compute_loop holds (paren ∷ s) (e ++ r ∷ rest)
        ≡ (m >>= λ b. compute_loop holds (truth b ∷ paren ∷ s) (r ∷ rest))
      → compute_loop holds s ((l ∷ (e ++ r ∷ [])) ++ rest)
        ≡ (m >>= λ b. put_stack s (truth b) >>= λ t. compute_loop holds t rest)
  unfolding compute_loop close_stack
  loop_bracket s l e r rest m hl hr k h =
      ap (compute_loop holds s) (bracket-append l e r rest)
      ∙ rw (step_open s l hl k, h)
          (bind_congr m λ b. rw (step_close (truth b ∷ paren ∷ s) r hr, bind_assoc))

  mutual
    unfolding compute_loop need eval_cond close_stack

    loop_cond :
        {ts : Logical F} (s : List Mark) (rest : Logical F) (c : Cond ts)
        → Closed s
        → length s + need c ≤ stack_room
        → compute_loop holds s (ts ++ rest)
          ≡ (eval_cond c >>= λ b. compute_loop holds (truth b ∷ s) rest)
    loop_cond s rest (unit u) k h =
        loop_unit s rest u h
        ∙ bind_congr (eval_unit u)
            λ b. rw (put_stack-Closed s (truth b) k (omega (arith, need-pos (unit u))))
    loop_cond s rest (chain e o u c ho v eq) k h =
        rw (eq, append_assoc, loop_cond s (o ∷ (u ++ rest)) c k (omega arith), bind_assoc)
          (bind_congr (eval_cond c) λ a.
            rw
              (
                step_junction (truth a ∷ s) o ho,
                junction_mark-room (truth a ∷ s) o (omega arith),
                loop_unit (junction_mark o ∷ truth a ∷ s) rest v (omega arith),
                bind_assoc,
              )
              (bind_congr (eval_unit v) λ b. rw (
                put_stack-junction o a b s,
                put_stack-Closed s (truth (join_truth o a b)) k (omega arith),
              )))

    loop_unit :
        {ts : Logical F} (s : List Mark) (rest : Logical F) (u : CondUnit ts)
        → length s + need_unit u ≤ stack_room
        → compute_loop holds s (ts ++ rest)
          ≡ (eval_unit u >>= λ b. put_stack s (truth b) >>= λ t. compute_loop holds t rest)
    loop_unit s rest (atom x a eq) h =
        rw (eq, step_atom s x a, bind_assoc)
          (bind_congr (holds x) λ b. bind_assoc (put_stack s (truth b)) _ _)
    loop_unit s rest (bracket l r e hl hr c eq) h =
        ap (λ z. compute_loop holds s (z ++ rest)) eq
        ∙ loop_bracket s l e r rest (eval_cond c) hl hr (omega (arith, need-pos c))
            (loop_cond (paren ∷ s) (r ∷ rest) c tt (omega arith))

  mutual
    unfolding need brackets

    need-brackets : {ts : Logical F} (c : Cond ts) → need c ≤ 3 * brackets ts + 3
    need-brackets (unit u) = omega (arith, need_unit-brackets u)
    need-brackets (chain e o u c ho h eq) =
        rw (eq, brackets-append e (o ∷ u)) (omega (arith, need-brackets c, need_unit-brackets h))

    need_unit-brackets : {ts : Logical F} (u : CondUnit ts) → need_unit u ≤ 3 * brackets ts + 1
    need_unit-brackets (atom x h eq) = omega arith
    need_unit-brackets (bracket l r e hl hr c eq) =
        rw (eq, hl, brackets-append e (r ∷ [])) (omega (arith, need-brackets c))

  bind-answer : (r : Outcome Bool) → (r >>= λ b. compute_loop holds (truth b ∷ []) []) ≡ r
  unfolding compute_loop answer
  bind-answer (ok b) = refl
  bind-answer (err m) = refl
  bind-answer ub = refl
  bind-answer hang = refl

  -- On a condition that `check_logical` accepts, with at most 41 brackets opened, the loop of
  -- `compute_logical` never leaves its array, and returns the value of the condition.
  pub compute_loop-Cond :
      {lg : Logical F} (c : Cond lg)
      → 3 * brackets lg + 3 ≤ stack_room
      → compute_loop holds [] lg ≡ eval_cond c
  compute_loop-Cond {lg} c h = rw (
    ← append-nil lg,
    loop_cond [] [] c tt (omega (arith, need-brackets c)),
    bind-answer (eval_cond c),
  )
