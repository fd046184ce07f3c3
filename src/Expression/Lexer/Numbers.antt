-- ===== src/Expression/Lexer/Numbers.antt =====
-- What `get_double` and the sign in front of a number do to texts such as `1.05` and `100-a`.
use stoxdb.Prelude.{
  ℕ, zero, suc, List, [], ◌∷◌, ◌++◌, reverse, true, false, ◌≡◌, refl, sym, subst, ◌∙◌, ◌≢◌, ◌⊎◌,
  inl, inr, append_assoc, append-nil, arith,
}
use mathlib.Core.List.{reverse-cons}
use stoxdb.Outcome.{
  ok, ◌>>=◌, Ensures, done, looped, Ensures-bind, Ensures-trivial, Ensures-eq, if_both, Ensures-map,
  Ensures-never, bind_assoc,
}
use stoxdb.Double.{Double}
use stoxdb.Expression.{Kind, is_kind, is_digit_type, Node, Expression}
use stoxdb.Expression.Check.{check_expression}
use stoxdb.Expression.Check.Grammar.{IsOperand}
use stoxdb.Expression.Check.Brackets.{check_expression-operands}
use stoxdb.Expression.Lexer.{
  between, next_is, int_d, node, scan_digits, scale, scale_fuel, fraction, get_double,
  last_is_operand, load_minus, load_token, load_loop,
}
use stoxdb.Expression.Lexer.Progress.{load_token-Extends}

-- Every byte of the text is a decimal digit.
abbrev pub AllDigits : List ℕ → Type 0
AllDigits [] = Unit {0}
AllDigits (c ∷ cs) = (between b'0' b'9' c ≡ true) × AllDigits cs

module _ (D : Double) where
  open D use {F, add, sub, mul}

  -- One step of the digit loop at the digit 0, from zero, gives zero.
  abbrev pub ZeroStep : Type 0
  ZeroStep = sub (add (mul (int_d D 0) (int_d D 10)) (int_d D b'0')) (int_d D b'0') ≡ int_d D 0

  scan_digits-append :
      (a : F) (ds cs : List ℕ)
      → AllDigits ds
      → scan_digits D a (ds ++ b'.' ∷ cs) ≡ ((scan_digits D a ds).0, b'.' ∷ cs)
  unfolding scan_digits
  scan_digits-append a [] cs h = refl
  scan_digits-append a (d ∷ ds) cs h =
      rw (h.0, scan_digits)
        (scan_digits-append (sub (add (mul a (int_d D 10)) (int_d D d)) (int_d D b'0')) ds cs h.1)

  fraction-zero : (cs : List ℕ) → ZeroStep → fraction D (b'.' ∷ b'0' ∷ cs) ≡ fraction D (b'.' ∷ cs)
  unfolding fraction scan_digits
  fraction-zero cs z = rw z

  -- A zero directly behind the decimal point is dropped: `get_double` reads `1.05` as it reads `1.5`.
  pub get_double-fraction_zero :
      (ds cs : List ℕ)
      → ZeroStep
      → AllDigits ds
      → get_double D (ds ++ b'.' ∷ b'0' ∷ cs) ≡ get_double D (ds ++ b'.' ∷ cs)
  unfolding get_double
  get_double-fraction_zero ds cs z h = rw (
    scan_digits-append (int_d D 0) ds (b'0' ∷ cs) h,
    scan_digits-append (int_d D 0) ds cs h,
    fraction-zero cs z,
  )

  fraction-kind : (cs : List ℕ) → is_digit_type (fraction D cs).1 ≡ true
  unfolding fraction is_digit_type
  fraction-kind cs =
      if_both (λ (r : F × Kind × List ℕ). is_digit_type r.1 ≡ true) (next_is b'.' cs) (λ _. refl)
        (λ _. refl)

  get_double-kind : (cs : List ℕ) → Ensures (λ r. is_digit_type r.1 ≡ true) (get_double D cs)
  unfolding get_double
  get_double-kind cs =
      Ensures-bind
        (Ensures-trivial (scale D scale_fuel (fraction D (scan_digits D (int_d D 0) cs).1).0))
        λ b _. done (fraction-kind (scan_digits D (int_d D 0) cs).1)

  digit-IsOperand : (x : Node F) → is_digit_type x.type ≡ true → IsOperand x
  digit-IsOperand x h = ground arith

  digit-last :
      (x : Node F) (ex : Expression F)
      → is_digit_type x.type ≡ true
      → last_is_operand D (x ∷ ex) ≡ false
  unfolding is_digit_type is_kind
  digit-last x ex h = ground arith

  -- Behind a number, `-` starts another number.
  load_minus-number :
      (x : Node F) (ex : Expression F) (cs : List ℕ)
      → is_digit_type x.type ≡ true
      → Ensures (λ r. (y : Node F) × IsOperand y × (r.0 ≡ y ∷ x ∷ ex)) (load_minus D (x ∷ ex) cs)
  unfolding load_minus
  load_minus-number x ex cs h = rw (digit-last x ex h) (
      Ensures-bind (get_double-kind cs) λ d k.
        let y : Node F = record (node D d.1) { vd = sub (int_d D 0) d.0 } in
        done (y, digit-IsOperand y k, refl))

  load_token-minus :
      (ex : Expression F) (cs : List ℕ) → load_token D ex b'-' cs ≡ load_minus D ex cs
  unfolding load_token
  load_token-minus ex cs = refl

  -- What the loop returns starts with the nodes that were read before.
  load_loop-extends :
      (n : ℕ) (ex : Expression F) (cs : List ℕ)
      → Ensures (λ r. (more : Expression F) × (r ≡ reverse ex ++ more)) (load_loop D n ex cs)
  unfolding load_loop
  load_loop-extends zero ex [] = done ([], sym (append-nil (reverse ex)))
  load_loop-extends zero ex (c ∷ cs) = looped
  load_loop-extends (suc n) ex [] = done ([], sym (append-nil (reverse ex)))
  load_loop-extends (suc n) ex (c ∷ cs) =
      Ensures-bind (load_token-Extends D ex c cs) λ r e. longer r e.1 (load_loop-extends n r.0 r.1)
    where
      longer :
          (r : Expression F × List ℕ)
          → ((r.0 ≡ ex) ⊎ ((y : Node F) × (r.0 ≡ y ∷ ex)))
          → Ensures (λ t. (more : Expression F) × (t ≡ reverse r.0 ++ more)) (load_loop D n r.0 r.1)
          → Ensures (λ t. (more : Expression F) × (t ≡ reverse ex ++ more)) (load_loop D n r.0 r.1)
      longer r (inl e) h = Ensures-map h λ t k. (k.0, rw (← e) k.1)
      longer r (inr (y, e)) h =
          Ensures-map h λ t k. (y ∷ k.0, k.1 ∙ rw (e, reverse-cons y ex, append_assoc))

  -- A formula in which `-` follows a number is never accepted: at the `-` behind a number the rest is
  -- read so that `check_expression` refuses the whole, whatever stands before and behind.
  pub load_check-number_minus :
      (n : ℕ) (x : Node F) (ex : Expression F) (cs : List ℕ)
      → is_digit_type x.type ≡ true
      → (load_loop D (suc n) (x ∷ ex) (b'-' ∷ cs) >>= check_expression) ≢ ok tt
  unfolding load_loop
  load_check-number_minus n x ex cs h =
      rw (load_token-minus, bind_assoc)
        (Ensures-eq (
          Ensures-bind (load_minus-number x ex cs h) λ r y.
            Ensures-bind (load_loop-extends n r.0 r.1) λ t m.
              subst (λ e. Ensures (λ _. ⊥) (check_expression e)) (sym (split r t y m))
                (refused r t y m)))
    where
      split :
          (r : Expression F × List ℕ) (t : Expression F)
          → (y : (y : Node F) × IsOperand y × (r.0 ≡ y ∷ x ∷ ex))
          → (m : (more : Expression F) × (t ≡ reverse r.0 ++ more))
          → t ≡ reverse ex ++ (x ∷ y.0 ∷ m.0)
      split r t y m =
          m.1 ∙ rw (y.2, reverse-cons y.0 (x ∷ ex), reverse-cons x ex, append_assoc, append_assoc)

      refused :
          (r : Expression F × List ℕ) (t : Expression F)
          → (y : (y : Node F) × IsOperand y × (r.0 ≡ y ∷ x ∷ ex))
          → (m : (more : Expression F) × (t ≡ reverse r.0 ++ more))
          → Ensures (λ _. ⊥) (check_expression (reverse ex ++ (x ∷ y.0 ∷ m.0)))
      refused r t y m =
          Ensures-never _
            (check_expression-operands (reverse ex) m.0 x y.0 (digit-IsOperand x h) y.1)
