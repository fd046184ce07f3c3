-- ===== src/Expression/Computer/Correct.antt =====
-- The list of a `Computer` while a formula is fed to it.
use mathlib.Core.List.{reverse-cons}
use stoxdb.Prelude.{
  ℕ, zero, suc, ap, ◌==◌, ◌&&◌, arith, Option, none, some, List, [], ◌∷◌, ◌++◌, Bool, true, false,
  ◌≡◌, refl, append-nil, append_assoc, reverse, Bool-cases, inl, inr, if◌then◌else◌,
}
use stoxdb.Prelude.Int.{ℤ, pos, negsuc}
use stoxdb.Outcome.{Outcome, ok, ub, ◌>>=◌, bind_assoc, bind_congr}
use stoxdb.Double.{Double}
use stoxdb.Expression.{Kind, kleft, kright, kadd, ksub, is_kind}
use stoxdb.Expression.Computer.{
  CNode, read_v, zero_d, number, sign, is_multiplicative, rem_int64, push_number, push_opt, result,
  sum_loop, pop_group,
}
use stoxdb.Expression.Computer.Syntax.{
  Event, AddOp, plus, minus, MulOp, times, over, modulo, add_kind, mul_kind, Sum, single, chain,
  Term, factor, product, Factor, leaf, group, events_sum, events_term, events_factor, apply_add,
  apply_mul, remainder, is_too_large, integer_part, eval_sum, eval_term, eval_factor, feed, compute,
}

largest-lowest :
    (a b : ℕ) → (a == 0x7fff_ffff_ffff_ffff && b == 0) ≡ is_too_large (negsuc a) (negsuc b)
largest-lowest a b = ground arith

positive : (b : ℕ) → (suc b == 0) ≡ false
positive b = ground arith

rem_int64-remainder : (m n : ℤ) → rem_int64 m n ≡ remainder m n
unfolding rem_int64
rem_int64-remainder (pos a) (pos zero) = refl
rem_int64-remainder (pos a) (pos (suc b)) = rw (positive b) refl
rem_int64-remainder (pos a) (negsuc b) = rw (positive b) refl
rem_int64-remainder (negsuc a) (pos zero) = refl
rem_int64-remainder (negsuc a) (pos (suc b)) = rw (positive b) refl
rem_int64-remainder (negsuc a) (negsuc b) = rw (largest-lowest a b, positive b) refl

integer_part-elim : (o : Option ℤ) → elim o [ none ↦ ub | some n ↦ ok n ] ≡ integer_part o
integer_part-elim none = refl
integer_part-elim (some n) = refl

module _ (D : Double) where
  open D use {F, add, sub}

  -- The signed terms of a sum, computed.
  data Values : Type 0 where
    first : F → Values
    next : Values → AddOp → F → Values

  cells : Values → List (CNode F)
  cells (first v) = number D v ∷ []
  cells (next vs o v) = number D v ∷ sign D (add_kind o) ∷ cells vs

  total : Values → F
  total (first v) = add (zero_d D) v
  total (next vs o v) = apply_add D o (total vs) v

  values_sum : Sum F → Outcome Values
  values_sum (single t) = eval_term D t >>= λ v. ok (first v)
  values_sum (chain s o t) = values_sum s >>= λ vs. eval_term D t >>= λ v. ok (next vs o v)

  -- No product waits for its right operand.
  abbrev Ready : List (CNode F) → Type 0
  Ready d = (v : F) → push_number D d v ≡ ok (number D v ∷ d)

  Ready-nil : Ready []
  unfolding push_number
  Ready-nil v = refl

  Ready-sign :
      (k : Kind) (d : List (CNode F)) → is_multiplicative D k ≡ false → Ready (sign D k ∷ d)
  unfolding push_number
  Ready-sign k [] h v = refl
  Ready-sign k (a ∷ d) h v = rw h

  sum_loop-last :
      (p : Bool) (v w : F) (o : AddOp)
      → sum_loop D p v (sign D (add_kind o) ∷ number D w ∷ []) ≡ ok (apply_add D o v w)
  unfolding sum_loop is_kind
  sum_loop-last p v w plus = refl
  sum_loop-last p v w minus = refl

  sum_loop-sign :
      (p : Bool) (v w : F) (o : AddOp) (xs : List (CNode F))
      → sum_loop D p v (xs ++ (sign D (add_kind o) ∷ number D w ∷ []))
        ≡ (sum_loop D p v xs >>= λ a. ok (apply_add D o a w))
  unfolding sum_loop
  sum_loop-sign p v w o [] = sum_loop-last p v w o
  sum_loop-sign p v w o (x ∷ xs) = elim (Bool-cases (is_kind x.type kadd)) [
    | inl h ↦ rw (h, sum_loop) (sum_loop-sign true v w o xs)
    | inr h ↦ elim (Bool-cases (is_kind x.type ksub)) [
      | inl k ↦ rw (h, k, sum_loop) (sum_loop-sign false v w o xs)
      | inr k ↦
          rw (h, k, sum_loop, bind_assoc)
            (bind_congr (read_v x) λ y. sum_loop-sign p (if p then add v y else sub v y) w o xs)
    ]
  ]

  sum_loop-cells : (vs : Values) → sum_loop D true (zero_d D) (reverse (cells vs)) ≡ ok (total vs)
  unfolding cells total
  sum_loop-cells (first v) = unfold sum_loop is_kind in refl
  sum_loop-cells (next vs o v) = rw (
    reverse-cons (number D v) (sign D (add_kind o) ∷ cells vs),
    reverse-cons (sign D (add_kind o)) (cells vs),
    append_assoc,
    sum_loop-sign true (zero_d D) v o (reverse (cells vs)),
    sum_loop-cells vs,
  )

  pop_group-cells :
      (st : List (CNode F)) (vs : Values) (d : List (CNode F))
      → pop_group st (cells vs ++ sign D kleft ∷ d) ≡ (reverse (cells vs) ++ st, d)
  unfolding cells pop_group is_kind
  pop_group-cells st (first v) d = refl
  pop_group-cells st (next vs plus v) d =
      rw
        (
          reverse-cons (number D v) (sign D kadd ∷ cells vs),
          reverse-cons (sign D kadd) (cells vs),
          append_assoc,
          append_assoc,
        )
        (pop_group-cells (sign D kadd ∷ number D v ∷ st) vs d)
  pop_group-cells st (next vs minus v) d =
      rw
        (
          reverse-cons (number D v) (sign D ksub ∷ cells vs),
          reverse-cons (sign D ksub) (cells vs),
          append_assoc,
          append_assoc,
        )
        (pop_group-cells (sign D ksub ∷ number D v ∷ st) vs d)

  push_opt-close :
      (vs : Values) (d : List (CNode F))
      → push_opt D (cells vs ++ sign D kleft ∷ d) kright ≡ push_number D d (total vs)
  unfolding push_opt is_kind
  push_opt-close vs d = rw (pop_group-cells [] vs d, append-nil, sum_loop-cells vs)

  push_opt-mul :
      (o : MulOp) (d : List (CNode F)) → push_opt D d (mul_kind o) ≡ ok (sign D (mul_kind o) ∷ d)
  unfolding push_opt is_kind
  push_opt-mul times d = refl
  push_opt-mul over d = refl
  push_opt-mul modulo d = refl

  push_opt-add :
      (o : AddOp) (d : List (CNode F)) → push_opt D d (add_kind o) ≡ ok (sign D (add_kind o) ∷ d)
  unfolding push_opt is_kind
  push_opt-add plus d = refl
  push_opt-add minus d = refl

  push_number-mul :
      (o : MulOp) (a b : F) (d : List (CNode F))
      → push_number D (sign D (mul_kind o) ∷ number D a ∷ d) b
        ≡ (apply_mul D o a b >>= λ t. ok (number D t ∷ d))
  unfolding push_number is_kind
  push_number-mul times a b d = refl
  push_number-mul over a b d = refl
  push_number-mul modulo a b d =
      ap (λ r. r >>= λ t. ok (number D t ∷ d))
        (rw (integer_part-elim (D.to_int64 a), integer_part-elim (D.to_int64 b))
          (bind_congr (integer_part (D.to_int64 a))
            λ m. bind_congr (integer_part (D.to_int64 b)) λ n. rw (rem_int64-remainder m n) refl))

  Ready-add : (o : AddOp) (d : List (CNode F)) → Ready (sign D (add_kind o) ∷ d)
  unfolding is_kind
  Ready-add plus d = Ready-sign kadd d refl
  Ready-add minus d = Ready-sign ksub d refl

  Ready-left : (d : List (CNode F)) → Ready (sign D kleft ∷ d)
  unfolding is_kind
  Ready-left d = Ready-sign kleft d refl

  eval_sum-single :
      (t : Term F) → eval_sum D (single t) ≡ (eval_term D t >>= λ v. ok (add (zero_d D) v))
  unfolding eval_sum
  eval_sum-single t = refl

  eval_sum-chain :
      (s : Sum F) (o : AddOp) (t : Term F)
      → eval_sum D (chain s o t)
        ≡ (eval_sum D s >>= λ a. eval_term D t >>= λ b. ok (apply_add D o a b))
  unfolding eval_sum
  eval_sum-chain s o t = refl

  eval_term-factor : (f : Factor F) → eval_term D (factor f) ≡ eval_factor D f
  unfolding eval_sum
  eval_term-factor f = refl

  eval_term-product :
      (t : Term F) (o : MulOp) (f : Factor F)
      → eval_term D (product t o f)
        ≡ (eval_term D t >>= λ a. eval_factor D f >>= λ b. apply_mul D o a b)
  unfolding eval_sum
  eval_term-product t o f = refl

  eval_factor-leaf : (v : F) → eval_factor D (leaf v) ≡ ok v
  unfolding eval_sum
  eval_factor-leaf v = refl

  push_opt-left : (d : List (CNode F)) → push_opt D d kleft ≡ ok (sign D kleft ∷ d)
  unfolding push_opt is_kind
  push_opt-left d = refl

  eval_factor-group : (s : Sum F) → eval_factor D (group s) ≡ eval_sum D s
  unfolding eval_sum
  eval_factor-group s = refl

  eval_sum-values : (s : Sum F) → eval_sum D s ≡ (values_sum s >>= λ vs. ok (total vs))
  unfolding values_sum total
  eval_sum-values (single t) = rw (eval_sum-single t, bind_assoc)
  eval_sum-values (chain s o t) = simp (eval_sum-chain s o t, eval_sum-values s, bind_assoc)

  mutual
    unfolding events_sum values_sum feed cells

    feed-sum :
        (s : Sum F) (d : List (CNode F)) (rest : List (Event F))
        → Ready d
        → feed D d (events_sum s ++ rest) ≡ (values_sum s >>= λ vs. feed D (cells vs ++ d) rest)
    feed-sum (single t) d rest h =
        rw (feed-term t d rest h, bind_assoc) (bind_congr (eval_term D t) λ v. refl)
    feed-sum (chain s o t) d rest h =
        rw (append_assoc, feed-sum s d _ h, bind_assoc)
          (bind_congr (values_sum s) λ vs.
            rw (push_opt-add o, feed-term t _ rest (Ready-add o (cells vs ++ d)), bind_assoc)
              (bind_congr (eval_term D t) λ v. refl))

    feed-term :
        (t : Term F) (d : List (CNode F)) (rest : List (Event F))
        → Ready d
        → feed D d (events_term t ++ rest) ≡ (eval_term D t >>= λ v. feed D (number D v ∷ d) rest)
    feed-term (factor f) d rest h =
        rw (eval_term-factor f, feed-factor f d rest) (bind_congr (eval_factor D f) λ v. rw (h v))
    feed-term (product t o f) d rest h =
        rw (eval_term-product t o f, append_assoc, feed-term t d _ h, bind_assoc)
          (bind_congr (eval_term D t) λ a.
            rw (push_opt-mul o, feed-factor f _ rest, bind_assoc)
              (bind_congr (eval_factor D f) λ b. rw (push_number-mul o a b d, bind_assoc)))

    feed-factor :
        (f : Factor F) (d : List (CNode F)) (rest : List (Event F))
        → feed D d (events_factor f ++ rest)
          ≡ (eval_factor D f >>= λ v. push_number D d v >>= λ d'. feed D d' rest)
    feed-factor (leaf v) d rest = rw (eval_factor-leaf v)
    feed-factor (group s) d rest =
        rw
          (
            eval_factor-group s,
            eval_sum-values s,
            push_opt-left d,
            append_assoc,
            feed-sum s _ _ (Ready-left d),
            bind_assoc,
          )
          (bind_congr (values_sum s) λ vs. rw (push_opt-close vs d))

  -- A computer that is fed the calls of a formula, whichever it is, gives the value of its sums,
  -- products, quotients and remainders with the usual precedence, and meets undefined behaviour
  -- exactly where that value does. An infinite quotient counts as zero; a remainder is that of the
  -- integer parts, with the sign of the left one.
  pub compute-eval_sum : (s : Sum F) → compute D (events_sum s) ≡ eval_sum D s
  unfolding compute result feed
  compute-eval_sum s =
      rw (← append-nil (events_sum s), feed-sum s [] [] Ready-nil, eval_sum-values s, bind_assoc)
        (bind_congr (values_sum s) λ vs. rw (append-nil, sum_loop-cells vs))
