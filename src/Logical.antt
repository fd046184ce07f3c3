-- ===== src/Logical.antt =====
-- logical.h and the functions of logical.cc that build a condition: `convert`,
-- `make_right_expression`, `make_left_expression` and `load_logical`. The vector `st` is a list, its
-- last element first; so is `lg` while it grows.
pub mod Split
pub mod Check
use stoxdb.Prelude.{
  ℕ, zero, suc, ◌+◌, ◌-◌, List, [], ◌∷◌, ◌++◌, map, reverse, Bool, true, false, ◌&&◌, ◌||◌, ◌==◌,
  if◌then◌else◌, length, Option, none, some,
}
use stoxdb.Outcome.{Outcome, ok, ub, hang, ◌>>=◌}
use stoxdb.Double.{Double}
use stoxdb.Expression.{
  Kind, kand, kor, kleft, kright, is_kind, is_compare_type, is_like_type, Node, Expression,
}
use stoxdb.Expression.Lexer.{load_expression}

-- `struct LogicalNode`. `extype` is `none` until `change_fname_to_fid` sets it.
pub record LogicalNode (F : Type 0) : Type 0 where
  pub type : Kind
  pub extype : Option Kind
  pub like_start : Bool
  pub like_end : Bool
  pub left : Expression F
  pub right : Expression F

abbrev pub Logical : Type 0 → Type 0
Logical F = List (LogicalNode F)

abbrev pub is_relation : Kind → Bool
is_relation t = is_compare_type t || is_like_type t

-- The pattern without `$` at its end, if there is one.
unfoldable pub strip_end : List ℕ → List ℕ × Bool
strip_end [] = ([], false)
strip_end (c ∷ []) = if c == b'$' then ([], true) else (c ∷ [], false)
strip_end (c ∷ d ∷ cs) = let more = strip_end (d ∷ cs) in (c ∷ more.0, more.1)

-- The pattern without `^` at its start, if there is one.
unfoldable pub strip_start : List ℕ → List ℕ × Bool
strip_start [] = ([], false)
strip_start (c ∷ cs) = if c == b'^' then (cs, true) else (c ∷ cs, false)

module _ {F : Type 0} where
  unfoldable pub convert : Node F → LogicalNode F
  convert n = record {
    type = n.type;
    extype = none;
    like_start = false;
    like_end = false;
    left = [];
    right = [];
  }

  -- Is this the end of the right operand, with `left` brackets open?
  abbrev pub ends_right : ℕ → Node F → Bool
  ends_right left x =
      is_kind x.type kand || is_kind x.type kor || is_kind x.type kright && left == 0

  unfoldable pub count_left : ℕ → Node F → ℕ
  count_left left x =
      if is_kind x.type kleft then left + 1 else if is_kind x.type kright then left - 1 else left

  -- The operand that the nodes start with, and the nodes behind it.
  unfoldable pub make_right_expression : ℕ → Expression F → Expression F × Expression F
  make_right_expression left [] = ([], [])
  make_right_expression left (x ∷ xs) =
      let more = make_right_expression (count_left left x) xs in
      if ends_right left x then ([], x ∷ xs) else (x ∷ more.0, more.1)

  -- Is this the end of the left operand, with `right` brackets open?
  abbrev pub ends_left : ℕ → Node F → Bool
  ends_left right x =
      is_kind x.type kand || is_kind x.type kor || is_kind x.type kleft && right == 0

  unfoldable pub count_right : ℕ → Node F → ℕ
  count_right right x =
      if is_kind x.type kright then right + 1 else if is_kind x.type kleft then right - 1 else right

  -- The nodes popped from `st`, first popped first, and what stays.
  unfoldable pub pop_left : ℕ → Expression F → Expression F × Expression F
  pop_left right [] = ([], [])
  pop_left right (x ∷ st) =
      let more = pop_left (count_right right x) st in
      if ends_left right x then ([], x ∷ st) else (x ∷ more.0, more.1)

  -- The left operand in the order of the text, and what stays on `st`.
  unfoldable pub make_left_expression : Expression F → Expression F × Expression F
  make_left_expression st = (reverse (pop_left 0 st).0, (pop_left 0 st).1)

  -- The node of a comparison with its two operands.
  unfoldable pub relation : Node F → Expression F → Expression F → LogicalNode F
  relation x st xs = record (convert x) {
    left = (make_left_expression st).0;
    right = (make_right_expression 0 xs).0;
  }

  -- The loop of `load_logical` on fuel: the nodes left, `st`, and `lg`.
  unfoldable pub split_loop : ℕ → Expression F → Expression F → Logical F → Outcome (Logical F)
  split_loop zero [] st lg = ok (reverse (map convert st ++ lg))
  split_loop zero (x ∷ xs) st lg = hang
  split_loop (suc n) [] st lg = ok (reverse (map convert st ++ lg))
  split_loop (suc n) (x ∷ xs) st lg = elim (is_relation x.type) [
    | true ↦
        split_loop n (make_right_expression 0 xs).1 []
          (relation x st xs ∷ (map convert (make_left_expression st).1 ++ lg))
    | false ↦ split_loop n xs (x ∷ st) lg
  ]

  unfoldable pub split : Expression F → Outcome (Logical F)
  split ex = split_loop (length ex) ex [] []

  -- The marks of a LIKE pattern, taken from the first node of the right operand: an access out of
  -- bounds where there is none.
  unfoldable pub mark_pattern : LogicalNode F → Expression F → Outcome (LogicalNode F)
  mark_pattern n [] = ub
  mark_pattern n (p ∷ ps) =
      let e = strip_end p.vs in
      let s = strip_start e.0 in
      ok (record n { like_start = s.1; like_end = e.1; right = record p { vs = s.0 } ∷ ps })

  unfoldable pub mark_like : LogicalNode F → Outcome (LogicalNode F)
  unfolding mark_pattern
  mark_like n = if is_like_type n.type then mark_pattern n n.right else ok n

  unfoldable pub mark_likes : Logical F → Outcome (Logical F)
  unfolding mark_like
  mark_likes [] = ok []
  mark_likes (n ∷ ns) = mark_like n >>= λ n'. mark_likes ns >>= λ ns'. ok (n' ∷ ns')

unfoldable pub load_logical : (D : Double) → List ℕ → Outcome (Logical D.F)
load_logical D str = load_expression D str >>= λ ex. split ex >>= λ lg. mark_likes lg
