-- ===== src/Tests/Conditions.antt =====
-- Conditions: `a = b and ( a > b )`, and one with too many brackets.
use stoxdb.Prelude.{
  ℕ, zero, suc, [], ◌∷◌, ◌++◌, Bool, true, false, ◌≡◌, refl, ◌↔◌, none, arith, replicate,
  length-replicate,
}
use stoxdb.Prelude.Int.{ℤ}
use stoxdb.Outcome.{Outcome, ok, ub, Post, ◌>>=◌}
use stoxdb.Expression.{
  Kind, kand, kleft, kright, keq, kgt, klike, kname, is_kind, is_compare_type, is_like_type,
  is_logical_type, is_four_type, Expression,
}
use stoxdb.Logical.{LogicalNode, Logical, split, mark_likes}
use stoxdb.Logical.Split.{Covers, logical_parts, split-Covers}
use stoxdb.Logical.Split.Like.{split-last_like}
use stoxdb.Expression.Check.{check_expression, check_step}
use stoxdb.Logical.Check.{check_logical, check_loop, check_compare, operand, operator, close}
use stoxdb.Logical.Check.Grammar.{Cond}
use stoxdb.Logical.Check.Language.{check_logical-Cond, check_logical_iff}
use stoxdb.Record.Where.{compute_loop}
use stoxdb.Record.Where.Meaning.{brackets, AllOpen, eval_cond, compute_loop-Cond}
use stoxdb.Record.Where.Overflow.{compute_loop-overflow}
use stoxdb.Tests.{sample}

abbrev mark : Kind → Expression ℤ → Expression ℤ → LogicalNode ℤ
mark k left right = record {
  type = k;
  extype = none;
  like_start = false;
  like_end = false;
  left = left;
  right = right;
}

abbrev name : Expression ℤ
name = sample kname ∷ []

abbrev condition : Logical ℤ
condition =
    mark keq name name
    ∷ mark kand [] []
    ∷ mark kleft [] []
    ∷ mark kgt name name
    ∷ mark kright [] []
    ∷ []

check_logical-Cond_example : Post (λ _. Cond condition) (check_logical condition)
check_logical-Cond_example = check_logical-Cond condition

check_logical_iff_example : (check_logical condition ≡ ok tt) ↔ Cond condition
check_logical_iff_example = check_logical_iff condition

condition-Cond : Cond condition
unfolding check_logical check_loop is_kind is_logical_type is_compare_type check_compare
    check_expression check_step is_four_type operand operator close
condition-Cond = (check_logical_iff condition).0 refl

-- Each comparison holds.
abbrev all_hold : LogicalNode ℤ → Outcome Bool
all_hold x = ok true

compute_loop-Cond_example : compute_loop all_hold [] condition ≡ eval_cond all_hold condition-Cond
unfolding brackets is_kind
compute_loop-Cond_example = compute_loop-Cond all_hold condition-Cond (omega arith)

opens-AllOpen : (n : ℕ) → AllOpen (replicate n (mark kleft [] []))
unfolding is_kind
opens-AllOpen zero = tt
opens-AllOpen (suc n) = (refl, opens-AllOpen n)

compute_loop-overflow_example :
    compute_loop all_hold [] (replicate 129 (mark kleft [] []) ++ condition) ≡ ub
compute_loop-overflow_example =
    compute_loop-overflow all_hold (replicate 129 (mark kleft [] [])) condition (opens-AllOpen 129)
      (omega (arith, length-replicate 129 (mark kleft [] [])))

abbrev likes : Expression ℤ
likes = sample kname ∷ sample keq ∷ sample kname ∷ []

split-Covers_example : Post (λ lg. Covers (logical_parts lg) likes) (split likes)
split-Covers_example = split-Covers likes

split-last_like_example : (split (name ++ sample klike ∷ []) >>= mark_likes) ≡ ub
unfolding is_kind is_like_type is_compare_type
split-last_like_example = split-last_like name (sample klike) (refl, tt) refl
