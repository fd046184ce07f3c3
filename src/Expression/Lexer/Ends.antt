-- ===== src/Expression/Lexer/Ends.antt =====
-- The end of `load_expression` on every text.
use stoxdb.Prelude.{
  ℕ, zero, suc, ◌≤◌, List, [], ◌∷◌, Bool, ◌||◌, ◌==◌, ◌≡◌, refl, ◌≢◌, length, arith, true, false,
  if◌then◌else◌,
}
use stoxdb.Outcome.{Outcome, ok, err, ub, hang, ◌>>=◌, Ensures-eq, if_both}
use stoxdb.Double.{Double}
use stoxdb.Expression.{Kind, Expression}
use stoxdb.Expression.Lexer.{
  between, next_is, rest_of, to_lower, int_d, scan_digits, scale, scale_fuel, fraction, get_double,
  last_is_operand, load_minus, load_token, load_loop, load_expression,
}
use stoxdb.Expression.Lexer.Progress.{length-rest_of, length-scan_digits, load_token-Extends}

-- A run that does not go on forever.
abbrev pub Halts {ℓ} : {A : Type ℓ} → Outcome A → Type ℓ
Halts r = r ≢ hang

Halts-ok : {A : Type 0} (a : A) → Halts (ok a)
Halts-ok a e = cc

Halts-bind :
    {A B : Type 0} (r : Outcome A) {f : A → Outcome B}
    → Halts r
    → ((a : A) → r ≡ ok a → Halts (f a))
    → Halts (r >>= f)
Halts-bind (ok a) h k = k a refl
Halts-bind (err m) h k = λ e. cc
Halts-bind ub h k = λ e. cc
Halts-bind hang h k = absurd (h refl)

module _ (D : Double) where
  open D use {F}

  -- The digits of a text of at most `n` characters are a number that is below one after fewer than
  -- `scale_fuel` divisions by ten: so it is for a finite double.
  abbrev pub Scales : ℕ → Type 0
  Scales n =
      (ds : List ℕ) → length ds ≤ n → Halts (scale D scale_fuel (scan_digits D (int_d D 0) ds).0)

  get_double-Halts : (n : ℕ) (cs : List ℕ) → Scales n → length cs ≤ n → Halts (get_double D cs)
  unfolding get_double fraction
  get_double-Halts n cs s h =
      let rest = (scan_digits D (int_d D 0) cs).1 in
      Halts-bind (scale D scale_fuel (fraction D rest).0)
        (if_both (λ (r : F × Kind × List ℕ). Halts (scale D scale_fuel r.0)) (next_is b'.' rest)
          (λ _.
            s (rest_of rest)
              (omega (arith, length-rest_of rest, length-scan_digits D (int_d D 0) cs, h)))
          λ _. unfold scan_digits in s [] (omega arith))
        λ b e. Halts-ok _

  load_minus-Halts :
      (n : ℕ) (ex : Expression F) (cs : List ℕ)
      → Scales n
      → length cs ≤ n
      → Halts (load_minus D ex cs)
  unfolding load_minus
  load_minus-Halts n ex cs s h =
      if_both Halts (last_is_operand D ex) (λ _. Halts-ok _)
        λ _. Halts-bind (get_double D cs) (get_double-Halts n cs s h) λ d e. Halts-ok _

  -- A test whose first branch ends.
  otherwise :
      {A : Type 0} (b : Bool) {x y : Outcome A} → Halts x → Halts y → Halts (if b then x else y)
  otherwise true hx hy = hx
  otherwise false hx hy = hy

  load_token-Halts :
      (n : ℕ) (ex : Expression F) (raw : ℕ) (cs : List ℕ)
      → Scales n
      → suc (length cs) ≤ n
      → Halts (load_token D ex raw cs)
  unfolding load_token
  load_token-Halts n ex raw cs s h =
      let c : ℕ = to_lower raw in
      otherwise (raw == b' ' || raw == b'\t' || raw == b'\n') (Halts-ok _) (
        otherwise (c == b'(') (Halts-ok _) (
          otherwise (c == b')') (Halts-ok _) (
            otherwise (c == b'+') (Halts-ok _) (
              otherwise (c == b'-') (load_minus-Halts n ex cs s (omega (arith, h))) (
                otherwise (c == b'*') (Halts-ok _) (
                  otherwise (c == b'/') (Halts-ok _) (
                    otherwise (c == b'%') (Halts-ok _) (
                      otherwise (c == b'>') (Halts-ok _) (
                        otherwise (c == b'<') (Halts-ok _) (
                          otherwise (c == b'=') (Halts-ok _) (
                            otherwise (c == b'!') (otherwise (next_is b'=' cs) (Halts-ok _) λ e. cc)
                              (otherwise (between b'a' b'z' c) (Halts-ok _) (
                                otherwise (between b'0' b'9' c)
                                  (Halts-bind (get_double D (raw ∷ cs))
                                    (get_double-Halts n (raw ∷ cs) s h) λ d e. Halts-ok _)
                                  (otherwise (c == b'\'') (Halts-ok _) λ e. cc))))))))))))))

  load_loop-Halts :
      (m n : ℕ) (ex : Expression F) (cs : List ℕ)
      → Scales m
      → length cs ≤ n
      → length cs ≤ m
      → Halts (load_loop D n ex cs)
  unfolding load_loop
  load_loop-Halts m zero ex [] s h k = Halts-ok _
  load_loop-Halts m zero ex (c ∷ cs) s h k = absurd (omega (arith, h))
  load_loop-Halts m (suc n) ex [] s h k = Halts-ok _
  load_loop-Halts m (suc n) ex (c ∷ cs) s h k =
      Halts-bind (load_token D ex c cs) (load_token-Halts m ex c cs s k) λ r e.
        let shorter = (Ensures-eq (load_token-Extends D ex c cs) e).0 in
        load_loop-Halts m n r.0 r.1 s (omega (arith, shorter, h)) (omega (arith, shorter, k))

  -- Where the digits of each text that is not longer than `str` are a number that fewer than 400
  -- divisions by ten bring below one, `load_expression` ends on `str`, whatever stands in it: its loop over the
  -- text does not go on forever.
  pub load_expression-Halts : (str : List ℕ) → Scales (length str) → Halts (load_expression D str)
  unfolding load_expression
  load_expression-Halts str s =
      load_loop-Halts (length str) (length str) [] str s (omega arith) (omega arith)
