-- ===== src/Expression/Lexer/Progress.antt =====
-- The steps of `load_expression`: the text they use up, and the nodes they add.
use native.Mathlib.Nat.{le_refl}
use stoxdb.Prelude.{
  ℕ, zero, suc, ◌≤◌, List, [], ◌∷◌, ◌++◌, Bool, true, false, ◌||◌, ◌==◌, ◌≡◌, refl, ◌⊎◌, inl, inr,
  if◌then◌else◌, length, arith,
}
use stoxdb.Outcome.{
  Outcome, ok, Ensures, done, failed, Ensures-bind, if_both, Ensures-trivial, Ensures-congr,
}
use stoxdb.Double.{Double}
use stoxdb.Expression.{Kind, kge, kgt, kle, klt, ksub, Node, Expression}
use stoxdb.Expression.Lexer.{
  between, next_is, rest_of, to_lower, get_name, get_quoted, int_d, node, scan_digits, scale,
  scale_fuel, fraction, get_double, last_is_operand, compare_sign, load_minus, load_token,
  load_loop, load_expression,
}

pub length-rest_of : (cs : List ℕ) → length (rest_of cs) ≤ length cs
length-rest_of [] = omega arith
length-rest_of (c ∷ cs) = omega arith

length-get_name : (cs : List ℕ) → length (get_name cs).1 ≤ length cs
unfolding get_name
length-get_name [] = omega arith
length-get_name (c ∷ cs) = ground (arith, length-get_name cs)

length-get_name_cons :
    (c : ℕ) (cs : List ℕ)
    → between b'a' b'z' (to_lower c) ≡ true
    → length (get_name (c ∷ cs)).1 ≤ length cs
unfolding get_name
length-get_name_cons c cs h = ground (arith, length-get_name cs)

length-get_quoted : (vs cs : List ℕ) → length (get_quoted vs cs).1 ≤ length cs
unfolding get_quoted
length-get_quoted vs [] = omega arith
length-get_quoted vs (c ∷ cs) = ground (arith, length-get_quoted (vs ++ c ∷ []) cs)

module _ (D : Double) where
  open D use {F, of_int, add, sub, mul, div}

  pub length-scan_digits : (a : F) (cs : List ℕ) → length (scan_digits D a cs).1 ≤ length cs
  unfolding scan_digits
  length-scan_digits a [] = omega arith
  length-scan_digits a (c ∷ cs) =
      if_both (λ (r : F × List ℕ). length r.1 ≤ suc (length cs)) (between b'0' b'9' c)
        (λ _. omega (
          arith,
          length-scan_digits (sub (add (mul a (int_d D 10)) (int_d D c)) (int_d D b'0')) cs,
        ))
        (λ _. omega arith)

  length-fraction : (cs : List ℕ) → length (fraction D cs).2 ≤ length cs
  unfolding fraction
  length-fraction cs =
      if_both (λ (r : F × Kind × List ℕ). length r.2 ≤ length cs) (next_is b'.' cs)
        (λ _. omega (arith, length-scan_digits (int_d D 0) (rest_of cs), length-rest_of cs))
        (λ _. omega arith)

  length-get_double :
      (n : ℕ) (cs : List ℕ) → length cs ≤ n → Ensures (λ r. length r.2 ≤ n) (get_double D cs)
  unfolding get_double
  length-get_double n cs h =
      Ensures-bind
        (Ensures-trivial (scale D scale_fuel (fraction D (scan_digits D (int_d D 0) cs).1).0))
        λ b _. done (
          omega (
            arith,
            length-fraction (scan_digits D (int_d D 0) cs).1,
            length-scan_digits (int_d D 0) cs,
          ))

  -- A digit is used up, so that less than the text is left behind a number that starts with one.
  length-scan_digits_cons :
      (a : F) (c : ℕ) (cs : List ℕ)
      → between b'0' b'9' c ≡ true
      → length (scan_digits D a (c ∷ cs)).1 ≤ length cs
  unfolding scan_digits
  length-scan_digits_cons a c cs h =
      rw (h, scan_digits)
        (length-scan_digits (sub (add (mul a (int_d D 10)) (int_d D c)) (int_d D b'0')) cs)

  length-get_double_cons :
      (c : ℕ) (cs : List ℕ)
      → between b'0' b'9' c ≡ true
      → Ensures (λ r. length r.2 ≤ length cs) (get_double D (c ∷ cs))
  unfolding get_double
  length-get_double_cons c cs h =
      Ensures-bind
        (Ensures-trivial (scale D scale_fuel (fraction D (scan_digits D (int_d D 0) (c ∷ cs)).1).0))
        λ b _. done (
          omega (
            arith,
            length-fraction (scan_digits D (int_d D 0) (c ∷ cs)).1,
            length-scan_digits_cons (int_d D 0) c cs h,
          ))

  -- A step keeps `ex`, or puts one node on it, and leaves `n` characters at most.
  abbrev pub Extends : Expression F → ℕ → Expression F × List ℕ → Type 0
  Extends ex n r = (length r.1 ≤ n) × ((r.0 ≡ ex) ⊎ ((y : Node F) × (r.0 ≡ y ∷ ex)))

  added :
      {ex : Expression F} {n : ℕ} (y : Node F) (rest : List ℕ)
      → length rest ≤ n
      → Ensures (Extends ex n) (ok (y ∷ ex, rest))
  added y rest h = done (h, inr (y, refl))

  compare_sign-Extends :
      (ex : Expression F) (k l : Kind) (cs : List ℕ)
      → Ensures (Extends ex (length cs)) (ok (compare_sign D ex k l cs))
  unfolding compare_sign
  compare_sign-Extends ex k l cs =
      if_both (λ (r : Expression F × List ℕ). Ensures (Extends ex (length cs)) (ok r))
        (next_is b'=' cs) (λ _. added (node D k) (rest_of cs) (length-rest_of cs))
        (λ _. added (node D l) cs (omega arith))

  load_minus-Extends :
      (ex : Expression F) (cs : List ℕ) → Ensures (Extends ex (length cs)) (load_minus D ex cs)
  unfolding load_minus
  load_minus-Extends ex cs =
      if_both (Ensures (Extends ex (length cs))) (last_is_operand D ex)
        (λ _. added (node D ksub) cs (omega arith))
        (λ _. Ensures-bind (length-get_double (length cs) cs (omega arith)) λ r h. added _ r.2 h)

  digit-to_lower :
      (raw : ℕ) → between b'0' b'9' (to_lower raw) ≡ true → between b'0' b'9' raw ≡ true
  unfolding to_lower
  digit-to_lower raw h = ground arith

  -- Both branches of a test, in the step at one character.
  branch :
      {ex : Expression F} {n : ℕ} (b : Bool) {x y : Outcome (Expression F × List ℕ)}
      → (b ≡ true → Ensures (Extends ex n) x)
      → Ensures (Extends ex n) y
      → Ensures (Extends ex n) (if b then x else y)
  branch true hx hy = hx refl
  branch false hx hy = hy

  pub load_token-Extends :
      (ex : Expression F) (raw : ℕ) (cs : List ℕ)
      → Ensures (Extends ex (length cs)) (load_token D ex raw cs)
  unfolding load_token
  load_token-Extends ex raw cs =
      let c : ℕ = to_lower raw in
      branch (raw == b' ' || raw == b'\t' || raw == b'\n')
        (λ _. done {a = (ex, cs)} (le_refl (length cs), inl refl))
        (branch (c == b'(') (λ _. added _ cs (le_refl (length cs)))
          (branch (c == b')') (λ _. added _ cs (le_refl (length cs)))
            (branch (c == b'+') (λ _. added _ cs (le_refl (length cs)))
              (branch (c == b'-') (λ _. load_minus-Extends ex cs)
                (branch (c == b'*') (λ _. added _ cs (le_refl (length cs)))
                  (branch (c == b'/') (λ _. added _ cs (le_refl (length cs)))
                    (branch (c == b'%') (λ _. added _ cs (le_refl (length cs)))
                      (branch (c == b'>') (λ _. compare_sign-Extends ex kge kgt cs)
                        (branch (c == b'<') (λ _. compare_sign-Extends ex kle klt cs)
                          (branch (c == b'=') (λ _. added _ cs (le_refl (length cs)))
                            (branch (c == b'!')
                              (λ _.
                                branch (next_is b'=' cs) (λ _. added _ _ (length-rest_of cs))
                                  failed)
                              (branch (between b'a' b'z' c)
                                (λ h. added _ _ (length-get_name_cons raw cs h))
                                (branch (between b'0' b'9' c)
                                  (λ h.
                                    Ensures-bind
                                      (length-get_double_cons raw cs (digit-to_lower raw h))
                                      λ r k. added _ r.2 k)
                                  (branch (c == b'\'') (λ _. added _ _ (length-get_quoted [] cs))
                                    (failed)))))))))))))))

  load_loop-fuels :
      (n m : ℕ) (ex : Expression F) (cs : List ℕ)
      → length cs ≤ n
      → length cs ≤ m
      → load_loop D n ex cs ≡ load_loop D m ex cs
  unfolding load_loop
  load_loop-fuels zero zero ex cs h k = refl
  load_loop-fuels zero (suc m) ex [] h k = refl
  load_loop-fuels (suc n) zero ex [] h k = refl
  load_loop-fuels (suc n) (suc m) ex [] h k = refl
  load_loop-fuels zero (suc m) ex (c ∷ cs) h k = absurd (omega arith)
  load_loop-fuels (suc n) zero ex (c ∷ cs) h k = absurd (omega arith)
  load_loop-fuels (suc n) (suc m) ex (c ∷ cs) h k =
      Ensures-congr (load_token-Extends ex c cs)
        λ r e. load_loop-fuels n m r.0 r.1 (omega arith) (omega arith)

  -- More fuel than the text has characters changes nothing: the loop over the text never runs out of
  -- fuel by itself.
  pub load_expression-fuel :
      (n : ℕ) (str : List ℕ) → length str ≤ n → load_loop D n [] str ≡ load_expression D str
  unfolding load_expression
  load_expression-fuel n str h = load_loop-fuels n (length str) [] str h (omega arith)
