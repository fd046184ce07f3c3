-- ===== src/Record/Where.antt =====
-- `put_stack` and `compute_logical` of record.cc. `lg_stack_` is a list, its top first, with room for
-- 128 marks: a write beyond them is undefined behaviour, and so is a read below them or, for an empty
-- condition, of a mark that was not written.
pub mod Meaning
pub mod Overflow
use stoxdb.Prelude.{
  ℕ, List, [], ◌∷◌, Bool, true, false, not, ◌&&◌, ◌||◌, ltb, ◌==◌, if◌then◌else◌, length, Option,
  none, some,
}
use stoxdb.Prelude.Int.{ℤ, pos, negsuc, ltb_ℤ}
use stoxdb.Outcome.{Outcome, ok, ub, ◌>>=◌}
use stoxdb.Double.{Double}
use stoxdb.Base.{Bytes, same, startwith, endwith, contain}
use stoxdb.Expression.{
  Kind, kand, kor, kleft, kright, keq, kgt, kge, klt, kle, kne, knlike, kint8, kchar, is_kind,
  is_compare_type, is_like_type, Node, Expression,
}
use stoxdb.Expression.Computer.{int64}
use stoxdb.Logical.{LogicalNode, Logical}
use stoxdb.Meta.{Field}
use stoxdb.Record.{read_text, field_at, formula_compute}

-- The characters '(', 'A', 'O', 'T' and 'F'.
pub data Mark : Type 0 where
  paren all any : Mark
  truth : Bool → Mark

abbrev pub is_true : Mark → Bool
is_true (truth b) = b
is_true _ = false

abbrev pub stack_room : ℕ
stack_room = 128

unfoldable pub push_mark : List Mark → Mark → Outcome (List Mark)
push_mark s c = if ltb (length s) stack_room then ok (c ∷ s) else ub

unfoldable pub put_stack : List Mark → Mark → Outcome (List Mark)
unfolding push_mark
put_stack (all ∷ l ∷ s) ret = put_stack s (truth (is_true l && is_true ret))
put_stack (any ∷ l ∷ s) ret = put_stack s (truth (is_true l || is_true ret))
put_stack (all ∷ []) ret = ub
put_stack (any ∷ []) ret = ub
put_stack s ret = push_mark s ret

-- At `)`: the mark on top is put in the place of the one below it.
unfoldable pub close_stack : List Mark → Outcome (List Mark)
unfolding put_stack
close_stack (c ∷ _ ∷ s) = put_stack s c
close_stack _ = ub

-- `lg_stack_[0]`, after the loop.
unfoldable pub answer : List Mark → Outcome Bool
answer [] = ub
answer (c ∷ []) = ok (is_true c)
answer (c ∷ d ∷ s) = answer (d ∷ s)

module _ {F : Type 0} (holds : LogicalNode F → Outcome Bool) where
  -- One node; `none` where the function returns false at once. `holds` decides a comparison.
  unfoldable pub compute_step : List Mark → LogicalNode F → Outcome (Option (List Mark))
  compute_step s x =
      if is_kind x.type kleft
      then (push_mark s paren >>= λ t. ok (some t))
      else if is_kind x.type kand
      then (push_mark s all >>= λ t. ok (some t))
      else if is_kind x.type kor
      then (push_mark s any >>= λ t. ok (some t))
      else if is_kind x.type kright
      then (close_stack s >>= λ t. ok (some t))
      else if is_like_type x.type || is_compare_type x.type
      then (holds x >>= λ b. put_stack s (truth b) >>= λ t. ok (some t))
      else ok none

  unfoldable pub compute_loop : List Mark → Logical F → Outcome Bool
  unfolding compute_step
  compute_loop s [] = answer s
  compute_loop s (x ∷ xs) =
      compute_step s x >>= λ r. elim r [ none ↦ ok false | some t ↦ compute_loop t xs ]

-- `a < b` on strings: byte by byte.
unfoldable pub bytes_lt : Bytes → Bytes → Bool
bytes_lt [] [] = false
bytes_lt [] (b ∷ ys) = true
bytes_lt (a ∷ xs) [] = false
bytes_lt (a ∷ xs) (b ∷ ys) = ltb a b || a == b && bytes_lt xs ys

-- The six comparisons from `<` and `==`.
unfoldable pub relate : Kind → Bool → Bool → Bool → Bool
relate k lt eq gt =
    if is_kind k keq
    then eq
    else if is_kind k kgt
    then gt
    else if is_kind k kge
    then gt || eq
    else if is_kind k klt
    then lt
    else if is_kind k kle
    then lt || eq
    else if is_kind k kne
    then not eq
    else false

abbrev pub eq_ℤ : ℤ → ℤ → Bool
eq_ℤ a b = not (ltb_ℤ a b) && not (ltb_ℤ b a)

-- `ex[0]`.
abbrev pub first_node : {F : Type 0} → Expression F → Outcome (Node F)
first_node [] = ub
first_node (x ∷ _) = ok x

unfoldable pub like_matches : Bool → Bool → Bytes → Bytes → Bool
like_matches like_start like_end v pattern_ =
    if like_start
    then (if like_end then same v pattern_ else startwith v pattern_)
    else (if like_end then endwith v pattern_ else contain v pattern_)

abbrev pub is_extype : Option Kind → Kind → Bool
is_extype none k = false
is_extype (some t) k = is_kind t k

module _ (D : Double) (fields : List (Field (D.F))) (value : Bytes) where
  open D use {F, lt, eq}

  -- The field on the left and the string on the right of a LIKE or of a comparison of strings.
  unfoldable pub text_operands : LogicalNode F → Outcome (Bytes × Bytes)
  text_operands x = first_node x.left >>= λ l. field_at fields l.id >>= λ f.
      first_node x.right >>= λ r. read_text f.offset value >>= λ v. ok (v, r.vs)

  unfoldable pub like_holds : LogicalNode F → Outcome Bool
  unfolding text_operands like_matches
  like_holds x = text_operands x >>= λ t.
      let m = like_matches x.like_start x.like_end t.0 t.1 in
      ok (if is_kind x.type knlike then not m else m)

  unfoldable pub compare_holds : LogicalNode F → Outcome Bool
  unfolding text_operands relate bytes_lt
  compare_holds x =
      if is_extype x.extype kchar
      then (text_operands x >>= λ t.
          ok (relate x.type (bytes_lt t.0 t.1) (same t.0 t.1) (bytes_lt t.1 t.0)))
      else (formula_compute D fields value x.left >>= λ a.
          formula_compute D fields value x.right >>= λ b.
          if is_extype x.extype kint8
          then (int64 D a >>= λ m.
              int64 D b >>= λ n. ok (relate x.type (ltb_ℤ m n) (eq_ℤ m n) (ltb_ℤ n m)))
          else ok (relate x.type (lt a b) (eq a b) (lt b a)))

  unfoldable pub node_holds : LogicalNode F → Outcome Bool
  unfolding like_holds compare_holds
  node_holds x = if is_like_type x.type then like_holds x else compare_holds x

  unfoldable pub compute_logical : Logical F → Outcome Bool
  unfolding node_holds compute_loop
  compute_logical lg = compute_loop node_holds [] lg
