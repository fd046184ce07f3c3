-- ===== src/Record/Where/Overflow.antt =====
-- record.cc: a condition that is nested deeper than the array of `compute_logical`.
use stoxdb.Prelude.{
  ◌+◌, ◌≤◌, ◌<◌, List, [], ◌∷◌, ◌++◌, Bool, ◌≡◌, refl, inl, inr, length, arith, le→ltb, ltb-cases,
}
use stoxdb.Outcome.{Outcome, ub}
use stoxdb.Logical.{LogicalNode, Logical}
use stoxdb.Logical.Check.Grammar.{IsOpen}
use stoxdb.Record.Where.{Mark, paren, stack_room, push_mark, compute_step, compute_loop}
use stoxdb.Record.Where.Meaning.{AllOpen, step_open}

push_mark-full : (s : List Mark) (c : Mark) → stack_room ≤ length s → push_mark s c ≡ ub
unfolding push_mark
push_mark-full s c h = rw (le→ltb (length s) stack_room h) refl

step_open-full :
    {F : Type 0} (holds : LogicalNode F → Outcome Bool) (s : List Mark) (x : LogicalNode F)
    → IsOpen x
    → stack_room ≤ length s
    → compute_step holds s x ≡ ub
unfolding compute_step
step_open-full holds s x h k = rw (h, push_mark-full s paren k)

overflow_from :
    {F : Type 0} (holds : LogicalNode F → Outcome Bool) (s : List Mark) (lg rest : Logical F)
    → AllOpen lg
    → length s ≤ stack_room
    → stack_room < length s + length lg
    → compute_loop holds s (lg ++ rest) ≡ ub
unfolding compute_loop
overflow_from holds s [] rest a h k = let no : ⊥ = omega (arith, h, k) in absurd no
overflow_from holds s (x ∷ lg) rest a h k = elim (ltb-cases (length s) stack_room) [
  | inl l ↦
      rw (step_open holds s x (a.0) l)
        (overflow_from holds (paren ∷ s) lg rest (a.1) (omega arith) (omega arith))
  | inr l ↦ rw (step_open-full holds s x (a.0) l)
]

-- A condition that starts with more left brackets than the array has places is written past its end,
-- whatever follows them: nothing refuses it.
pub compute_loop-overflow :
    {F : Type 0} (holds : LogicalNode F → Outcome Bool) (lg rest : Logical F)
    → AllOpen lg
    → stack_room < length lg
    → compute_loop holds [] (lg ++ rest) ≡ ub
compute_loop-overflow holds lg rest h k =
    overflow_from holds [] lg rest h (omega arith) (omega (arith, k))
