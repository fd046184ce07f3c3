-- ===== src/Tests/Records.antt =====
-- The formula `(a + 7) * 7` over a record whose only field, of one byte, is 5.
use stoxdb.Prelude.{true, false, [], ◌∷◌, map, ◌≡◌, refl, some}
use stoxdb.Prelude.Int.{ℤ, pos}
use stoxdb.Outcome.{ok}
use stoxdb.Base.Bytes.{getint, of_word}
use stoxdb.Expression.{
  kleft, kright, kadd, kmulti, kname, kint1, kint4, is_kind, is_four_type, is_digit_type,
  Expression,
}
use stoxdb.Expression.Check.{check_expression, check_step, close, operator, operand}
use stoxdb.Expression.Check.Grammar.{Accepted, check_expression_iff}
use stoxdb.Expression.Computer.Syntax.{eval_sum}
use stoxdb.Meta.{Field}
use stoxdb.Record.{field_at, read_number, formula_compute}
use stoxdb.Record.Formula.{link, sum_of, Known, formula_compute-eval_sum}
use stoxdb.Tests.{int_double, sample}

abbrev formula_nodes : Expression ℤ
formula_nodes =
    sample kleft
    ∷ sample kname
    ∷ sample kadd
    ∷ sample kint4
    ∷ sample kright
    ∷ sample kmulti
    ∷ sample kint4
    ∷ []

abbrev column : Field ℤ
column = record {
  name = b'a' ∷ [];
  type = kint1;
  note = [];
  formula = [];
  decide = [];
  offset = 0;
  size = 1;
  rtype = [];
  rform = [];
}

formula_nodes-Accepted : Accepted formula_nodes
unfolding check_expression check_step is_kind is_four_type is_digit_type close operator operand
formula_nodes-Accepted = (check_expression_iff formula_nodes).0 refl

formula_nodes-Known : Known int_double (column ∷ []) (5 ∷ []) (λ _. 0) (λ _. pos 5) formula_nodes
unfolding is_kind read_number getint of_word
formula_nodes-Known =
    let no : (false ≡ true
        → (f : Field ℤ) × (field_at (column ∷ []) 0 ≡ ok f)
          × (read_number int_double f (5 ∷ []) ≡ ok (some (pos 5)))) =
      λ e. absurd (cc) in
    (no, ((λ e. (column, refl, refl)), (no, (no, (no, (no, (no, tt)))))))

formula_compute-eval_sum_example :
    formula_compute int_double
      (column ∷ [])
      (5 ∷ [])
      (map (link int_double (column ∷ []) (5 ∷ []) (λ _. 0) (λ _. pos 5)) formula_nodes)
    ≡ eval_sum int_double (sum_of (λ _. pos 5) formula_nodes-Accepted)
formula_compute-eval_sum_example =
    formula_compute-eval_sum int_double (column ∷ []) (5 ∷ []) (λ _. 0) (λ _. pos 5)
      formula_nodes-Accepted formula_nodes-Known
