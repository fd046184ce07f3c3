-- ===== src/Record/Formula.antt =====
-- `formula_compute` of record.cc on a checked formula whose names are field numbers.
use stoxdb.Prelude.{
  ℕ, List, [], ◌∷◌, ◌++◌, map, Bool, true, false, ◌||◌, ◌≡◌, refl, sym, ap, ◌∙◌, ◌⊎◌, inl, inr,
  arith, Bool-cases, if◌then◌else◌, some, append_assoc, subst,
}
use mathlib.Core.List.{map-append}
use stoxdb.Outcome.{Outcome, ok, ◌>>=◌, bind_congr}
use stoxdb.Double.{Double}
use stoxdb.Base.{Bytes}
use stoxdb.Expression.{
  Kind, kleft, kright, kadd, ksub, kmulti, kdiv, kmod, kname, kid, ordinal, is_kind, is_four_type,
  is_digit_type, Node, Expression,
}
use stoxdb.Expression.Check.Grammar.{
  IsOpen, IsClose, IsOperator, IsOperand, Accepted, atom, bracket, binary,
}
use stoxdb.Expression.Computer.{CNode, push_number, push_opt}
use stoxdb.Expression.Computer.Syntax.{
  Event, opt, num, AddOp, MulOp, plus, minus, times, over, modulo, add_kind, mul_kind, Sum, single,
  chain, factor, product, leaf, group, events_sum, events_term, eval_sum, feed, compute,
}
use stoxdb.Expression.Computer.Correct.{compute-eval_sum}
use stoxdb.Meta.{Field}
use stoxdb.Record.{field_at, read_number, formula_push, formula_loop, formula_compute}

kind-left : (k : Kind) → is_kind k kleft ≡ true → k ≡ kleft
unfolding is_kind ordinal
kind-left k h = ground arith

kind-right : (k : Kind) → is_kind k kright ≡ true → k ≡ kright
unfolding is_kind ordinal
kind-right k h = ground arith

abbrev is_sign : Kind → Bool
is_sign k = is_kind k kleft || is_kind k kright || is_four_type k

operand-no_sign : (k : Kind) → (is_kind k kname || is_digit_type k) ≡ true → is_sign k ≡ false
unfolding is_kind is_four_type is_digit_type ordinal
operand-no_sign k h = ground arith

open-sign : (k : Kind) → is_kind k kleft ≡ true → is_sign k ≡ true
unfolding is_kind is_four_type ordinal
open-sign k h = ground arith

close-sign : (k : Kind) → is_kind k kright ≡ true → is_sign k ≡ true
unfolding is_kind is_four_type ordinal
close-sign k h = ground arith

operator-sign : (k : Kind) → is_four_type k ≡ true → is_sign k ≡ true
unfolding is_kind is_four_type ordinal
operator-sign k h = ground arith

sign-no_name : (k : Kind) → is_sign k ≡ true → is_kind k kname ≡ false
unfolding is_kind is_four_type ordinal
sign-no_name k h = ground arith

name_or_digit :
    (k : Kind)
    → (is_kind k kname || is_digit_type k) ≡ true
    → is_kind k kname ≡ false
    → is_digit_type k ≡ true
name_or_digit k h n = ground arith

kid_sign : is_sign kid ≡ false
unfolding is_kind is_four_type ordinal
kid_sign = refl

kid_digit : is_digit_type kid ≡ false
unfolding is_digit_type ordinal
kid_digit = refl

operator-cases :
    (k : Kind)
    → is_four_type k ≡ true
    → ((p : AddOp) × (k ≡ add_kind p)) ⊎ ((p : MulOp) × (k ≡ mul_kind p))
unfolding is_four_type ordinal
operator-cases kadd h = inl (plus, refl)
operator-cases ksub h = inl (minus, refl)
operator-cases kmulti h = inr (times, refl)
operator-cases kdiv h = inr (over, refl)
operator-cases kmod h = inr (modulo, refl)
operator-cases k h = absurd (cc)

module _ {F : Type 0} where
  -- A formula followed by one more product or quotient.
  times_last : Sum F → MulOp → F → Sum F
  times_last (single t) o v = single (product t o (leaf v))
  times_last (chain s p t) o v = chain s p (product t o (leaf v))

  extend :
      (k : Kind)
      → ((p : AddOp) × (k ≡ add_kind p)) ⊎ ((p : MulOp) × (k ≡ mul_kind p))
      → Sum F
      → F
      → Sum F
  extend k (inl (p, e)) s v = chain s p (factor (leaf v))
  extend k (inr (p, e)) s v = times_last s p v

  events-times_last :
      (s : Sum F) (p : MulOp) (v : F)
      → events_sum (times_last s p v) ≡ events_sum s ++ (opt (mul_kind p) ∷ num v ∷ [])
  unfolding times_last events_sum
  events-times_last (single t) p v = refl
  events-times_last (chain s o t) p v = sym (
      append_assoc (events_sum s) (opt (add_kind o) ∷ events_term t)
        (opt (mul_kind p) ∷ num v ∷ []))

  events-extend :
      (k : Kind) (c : ((p : AddOp) × (k ≡ add_kind p)) ⊎ ((p : MulOp) × (k ≡ mul_kind p)))
      (s : Sum F) (v : F)
      → events_sum (extend k c s v) ≡ events_sum s ++ (opt k ∷ num v ∷ [])
  unfolding extend events_sum
  events-extend k (inl (p, e)) s v = rw e
  events-extend k (inr (p, e)) s v = rw e (events-times_last s p v)

  -- The values of the fields by their names.
  module _ (vals : Bytes → F) where
    -- The value of an operand: of the field that it names, or its own.
    abbrev pub value_of : Node F → F
    value_of x = if is_kind x.type kname then vals x.vs else x.vd

    abbrev event_of : Node F → Event F
    event_of x = if is_sign x.type then opt x.type else num (value_of x)

    -- The sum that an accepted expression stands for.
    pub sum_of : {ex : Expression F} → Accepted ex → Sum F
    sum_of (atom x h e) = single (factor (leaf (value_of x)))
    sum_of (bracket l r ex hl hr a e) = single (factor (group (sum_of a)))
    sum_of (binary ex o x a ho hx e) =
        extend o.type (operator-cases o.type ho) (sum_of a) (value_of x)

    event-operand : (x : Node F) → IsOperand x → event_of x ≡ num (value_of x)
    event-operand x h = rw (operand-no_sign x.type h) refl

    event-open : (x : Node F) → IsOpen x → event_of x ≡ opt kleft
    event-open x h = rw h (ap opt (kind-left x.type h))

    event-close : (x : Node F) → IsClose x → event_of x ≡ opt kright
    event-close x h = rw (close-sign x.type h) (ap opt (kind-right x.type h))

    event-operator : (x : Node F) → IsOperator x → event_of x ≡ opt x.type
    event-operator x h = rw (operator-sign x.type h) refl

    events-sum_of : {ex : Expression F} (a : Accepted ex) → map event_of ex ≡ events_sum (sum_of a)
    unfolding sum_of events_sum
    events-sum_of (atom x h e) = rw (e, event-operand x h)
    events-sum_of (bracket l r ex hl hr a e) =
        rw (e, event-open l hl, map-append event_of ex (r ∷ []), events-sum_of a, event-close r hr)
    events-sum_of (binary ex o x a ho hx e) =
        rw
          (
            e,
            map-append event_of ex (o ∷ x ∷ []),
            events-sum_of a,
            event-operator o ho,
            event-operand x hx,
          )
          (sym (events-extend o.type (operator-cases o.type ho) (sum_of a) (value_of x)))

module _ (D : Double) (fields : List (Field D.F)) (value : Bytes) (ids : Bytes → ℕ)
    (vals : Bytes → D.F) where
  open D use {F}

  -- A name becomes the number of its field, as `load_config` does it for the nodes of a formula.
  abbrev pub link : Node F → Node F
  link x = if is_kind x.type kname then record x { type = kid; id = ids x.vs } else x

  -- The field of each name is there, is a number, and has the value that `vals` gives the name.
  abbrev pub Known : Expression F → Type 0
  Known [] = Unit {0}
  Known (x ∷ xs) =
      (is_kind x.type kname ≡ true
        → (f : Field F) × (field_at fields (ids x.vs) ≡ ok f)
          × (read_number D f value ≡ ok (some (vals x.vs))))
      × Known xs

  -- Each node is a bracket, an operator or an operand.
  abbrev Shaped : Expression F → Type 0
  Shaped [] = Unit {0}
  Shaped (x ∷ xs) = ((is_sign x.type ≡ true) ⊎ IsOperand x) × Shaped xs

  Shaped-append : (xs ys : Expression F) → Shaped xs → Shaped ys → Shaped (xs ++ ys)
  Shaped-append [] ys h k = k
  Shaped-append (x ∷ xs) ys h k = (h.0, Shaped-append xs ys h.1 k)

  Accepted-Shaped : {ex : Expression F} → Accepted ex → Shaped ex
  Accepted-Shaped (atom x h e) = subst Shaped (sym e) (inr h, tt)
  Accepted-Shaped (bracket l r ex hl hr a e) = subst Shaped (sym e) (
    inl (open-sign l.type hl),
    Shaped-append ex (r ∷ []) (Accepted-Shaped a) (inl (close-sign r.type hr), tt),
  )
  Accepted-Shaped (binary ex o x a ho hx e) = subst Shaped (sym e) (
      Shaped-append ex (o ∷ x ∷ []) (Accepted-Shaped a)
        (inl (operator-sign o.type ho), (inr hx, tt)))

  abbrev push_event : List (CNode F) → Event F → Outcome (List (CNode F))
  push_event d (opt k) = push_opt D d k
  push_event d (num v) = push_number D d v

  formula_push-link :
      (d : List (CNode F)) (x : Node F)
      → Known (x ∷ [])
      → Shaped (x ∷ [])
      → formula_push D fields value d (link x) ≡ push_event d (event_of vals x)
  unfolding formula_push
  formula_push-link d x k (inl t, u) = rw (sign-no_name x.type t, t) refl
  formula_push-link d x k (inr o, u) = elim (Bool-cases (is_kind x.type kname)) [
    | inl n ↦
        let (f, g, r) = k.0 n in
        rw (operand-no_sign x.type o, n) (rw (kid_sign, kid_digit, g, r) refl)
    | inr n ↦ rw n (rw (operand-no_sign x.type o, name_or_digit x.type o n) refl)
  ]

  feed-cons :
      (d : List (CNode F)) (e : Event F) (es : List (Event F))
      → feed D d (e ∷ es) ≡ (push_event d e >>= λ d'. feed D d' es)
  unfolding feed
  feed-cons d (opt k) es = refl
  feed-cons d (num v) es = refl

  formula_loop-feed :
      (d : List (CNode F)) (ex : Expression F)
      → Known ex
      → Shaped ex
      → formula_loop D fields value d (map link ex) ≡ feed D d (map (event_of vals) ex)
  unfolding formula_loop feed
  formula_loop-feed d [] k h = refl
  formula_loop-feed d (x ∷ xs) k h =
      rw (formula_push-link d x (k.0, tt) (h.0, tt))
        (bind_congr (push_event d (event_of vals x)) λ d'. formula_loop-feed d' xs k.1 h.1)
      ∙ sym (feed-cons d (event_of vals x) (map (event_of vals) xs))

  -- For an expression that `check_expression` accepts, whose names are numeric fields of the record,
  -- `formula_compute` over the linked nodes returns the value of the sum that the expression stands for,
  -- with the values of the fields in the places of the names, and meets undefined behaviour exactly
  -- where that value does. An infinite quotient counts as zero; a remainder is that of the integer
  -- parts, with the sign of the left one.
  pub formula_compute-eval_sum :
      {ex : Expression F} (a : Accepted ex)
      → Known ex
      → formula_compute D fields value (map link ex) ≡ eval_sum D (sum_of vals a)
  unfolding formula_compute compute
  formula_compute-eval_sum {ex} a k =
      rw (formula_loop-feed [] ex k (Accepted-Shaped a), events-sum_of vals a)
        (compute-eval_sum D (sum_of vals a))
