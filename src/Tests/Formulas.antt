-- ===== src/Tests/Formulas.antt =====
-- Formulas: `2 * (3 + 4) - 1` for the computer, `(a + 7) * 7` for the check, and texts for the reader.
use stoxdb.Prelude.{
  length, ◌/◌, ◌+◌, ◌*◌, ◌≤◌, ◌&&◌, ◌||◌, not, true, zero, suc, Bool-cases, inl, inr, ℕ, List, [],
  ◌∷◌, ◌++◌, ◌≡◌, refl, ◌≢◌, ◌↔◌, arith,
}
use stoxdb.Prelude.Int.{ltb_ℤ, pos_part, ℤ, pos, ◌+ℤ◌, ◌-ℤ◌, ◌*ℤ◌}
use stoxdb.Outcome.{if_both, ok, Post, ◌>>=◌}
use stoxdb.Expression.{
  kleft, kright, kadd, kmulti, kname, kint4, is_kind, is_four_type, is_digit_type, Expression,
}
use stoxdb.Expression.Computer.Syntax.{
  Sum, single, chain, factor, product, leaf, group, times, plus, minus, events_sum, eval_sum,
  compute,
}
use stoxdb.Expression.Computer.Correct.{compute-eval_sum}
use stoxdb.Expression.Check.{check_expression}
use stoxdb.Expression.Check.Grammar.{Accepted, check_expression-Accepted, check_expression_iff}
use stoxdb.Expression.Check.Brackets.{check_expression-operator_bracket}
use stoxdb.Expression.Lexer.{
  between, scale, scale_fuel, scan_digits, load_expression, load_loop, get_double,
}
use stoxdb.Expression.Lexer.Ends.{Halts, Scales, load_expression-Halts}
use stoxdb.Expression.Lexer.Numbers.{get_double-fraction_zero, load_check-number_minus}
use stoxdb.Tests.{int_double, sample}

abbrev formula : Sum ℤ
formula =
    chain
      (single (
        product (factor (leaf (pos 2))) times
          (group (chain (single (factor (leaf (pos 3)))) plus (factor (leaf (pos 4)))))))
      minus (factor (leaf (pos 1)))

compute-eval_sum_example : compute int_double (events_sum formula) ≡ eval_sum int_double formula
compute-eval_sum_example = compute-eval_sum int_double formula

abbrev nodes : Expression ℤ
nodes =
    sample kleft
    ∷ sample kname
    ∷ sample kadd
    ∷ sample kint4
    ∷ sample kright
    ∷ sample kmulti
    ∷ sample kint4
    ∷ []

check_expression-Accepted_example : Post (λ _. Accepted nodes) (check_expression nodes)
check_expression-Accepted_example = check_expression-Accepted nodes

check_expression_iff_example : (check_expression nodes ≡ ok tt) ↔ Accepted nodes
check_expression_iff_example = check_expression_iff nodes

check_expression-operator_bracket_example :
    check_expression ((sample kname ∷ []) ++ (sample kmulti ∷ sample kleft ∷ nodes)) ≢ ok tt
unfolding is_kind is_four_type
check_expression-operator_bracket_example =
    check_expression-operator_bracket (sample kname ∷ []) nodes (sample kmulti) (sample kleft) refl
      refl

get_double-fraction_zero_example :
    get_double int_double ((b'1' ∷ []) ++ b'.' ∷ b'0' ∷ b'5' ∷ [])
    ≡ get_double int_double ((b'1' ∷ []) ++ b'.' ∷ b'5' ∷ [])
unfolding ◌+ℤ◌ ◌-ℤ◌ ◌*ℤ◌
get_double-fraction_zero_example =
    get_double-fraction_zero int_double (b'1' ∷ []) (b'5' ∷ []) refl (refl, tt)

-- `100-a`, read up to the sign.
load_check-number_minus_example :
    (load_loop int_double 2 (sample kint4 ∷ []) (b'-' ∷ b'a' ∷ []) >>= check_expression) ≢ ok tt
unfolding is_digit_type
load_check-number_minus_example =
    load_check-number_minus int_double 1 (sample kint4) [] (b'a' ∷ []) refl

-- A round of the loop that scales.
scale-round :
    (n : ℕ) (v : ℤ)
    → ((ltb_ℤ (pos 1) v || (not (ltb_ℤ (pos 1) v) && not (ltb_ℤ v (pos 1)))) ≡ true
        → Halts (scale int_double n (pos (pos_part v / 10))))
    → Halts (scale int_double (suc n) v)
unfolding scale
scale-round n v h =
    elim (Bool-cases (ltb_ℤ (pos 1) v || (not (ltb_ℤ (pos 1) v) && not (ltb_ℤ v (pos 1))))) [
      | inl t ↦ rw (scale, t) (h t)
      | inr e ↦ rw (scale, e) (λ q. cc)
    ]

int_scale-Halts : (n : ℕ) (v : ℤ) → pos_part v ≤ n → Halts (scale int_double (suc n) v)
int_scale-Halts zero v h = scale-round zero v λ t. absurd (ground (arith, t, h))
int_scale-Halts (suc n) v h = scale-round (suc n) v λ t. int_scale-Halts n _ (omega (arith, h))

digit_value :
    (v : ℤ) (c m : ℕ)
    → between b'0' b'9' c ≡ true
    → pos_part v ≤ m
    → pos_part (v *ℤ pos 10 +ℤ pos c -ℤ pos 48) ≤ 10 * m + 9
unfolding ◌+ℤ◌ ◌-ℤ◌ ◌*ℤ◌
digit_value v c m h k = ground (arith, h, k)

-- A bound for a number with `n` digits more.
abbrev longer : ℕ → ℕ → ℕ
longer zero m = m
longer (suc n) m = longer n (10 * m + 9)

longer_le : (n m : ℕ) → m ≤ longer n m
longer_le zero m = omega arith
longer_le (suc n) m = omega (arith, longer_le n (10 * m + 9))

scan_small :
    (n m : ℕ) (v : ℤ) (ds : List ℕ)
    → length ds ≤ n
    → pos_part v ≤ m
    → pos_part (scan_digits int_double v ds).0 ≤ longer n m
unfolding scan_digits
scan_small n m v [] h k = omega (arith, k, longer_le n m)
scan_small zero m v (c ∷ ds) h k = absurd (omega (arith, h))
scan_small (suc n) m v (c ∷ ds) h k =
    if_both (λ (r : ℤ × List ℕ). pos_part r.0 ≤ longer (suc n) m) (between b'0' b'9' c)
      (λ t. scan_small n (10 * m + 9) _ ds (omega (arith, h)) (digit_value v c m t k))
      λ _. omega (arith, k, longer_le (suc n) m)

two_digits-Scales : Scales int_double 2
unfolding scale_fuel
two_digits-Scales ds h =
    int_scale-Halts 399 (scan_digits int_double (pos 0) ds).0
      (omega (arith, scan_small 2 0 (pos 0) ds h (omega arith)))

load_expression-Halts_example : Halts (load_expression int_double (b'1' ∷ b'7' ∷ []))
load_expression-Halts_example =
    load_expression-Halts int_double (b'1' ∷ b'7' ∷ []) two_digits-Scales
