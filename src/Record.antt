-- ===== src/Record.antt =====
-- record.h and record.cc: how a record's bytes are read, and `formula_compute`.
pub mod Where
pub mod Formula
pub mod Request
pub mod Store
pub mod Set
pub mod Reply
pub mod Order
pub mod Link
pub mod Get
pub mod Delete
pub mod Aggregate
pub mod Dump
use stoxdb.Prelude.{
  ℕ, zero, suc, ◌+◌, List, [], ◌∷◌, ◌++◌, Bool, true, false, ◌||◌, ltb, ◌==◌, if◌then◌else◌,
  get_elem?, drop, Option, none, some,
}
use stoxdb.Prelude.Int.{ℤ, pos, negsuc}
use stoxdb.Outcome.{Outcome, ok, err, ub, ◌>>=◌, Message}
use stoxdb.Double.{Double}
use stoxdb.Base.{Bytes}
use stoxdb.Base.Bytes.{read_bytes, getint}
use stoxdb.Expression.{
  Kind, kleft, kright, kint1, kint2, kint4, kint8, kfloat, kdouble, is_kind, is_four_type,
  is_digit_type, Node, Expression,
}
use stoxdb.Expression.Computer.{CNode, push_number, push_opt, result}
use stoxdb.Meta.{Field}

-- `*(intN_t*)(value + offset)`.
abbrev pub read_int : ℕ → ℕ → Bytes → Outcome ℤ
read_int w offset value = getint w (drop offset value) >>= λ r. ok r.0

-- The string of a field: its length in two signed bytes, and its bytes.
unfoldable pub read_text : ℕ → Bytes → Outcome Bytes
read_text offset value = getint 2 (drop offset value) >>= λ r. elim r.0 [
  | pos l ↦ read_bytes l r.1 >>= λ t. ok t.0
  | negsuc l ↦ err Message.length_error
]

-- The number of the field with an index, undefined behaviour beyond the fields.
abbrev pub field_at : {F : Type 0} → List (Field F) → ℕ → Outcome (Field F)
field_at fields id = elim (get_elem? fields id) [ none ↦ ub | some f ↦ ok f ]

module _ (D : Double) where
  open D use {F, of_int, of_float_bytes, of_double_bytes}

  -- The value of a field as a double, `none` for a field that is no number.
  unfoldable pub read_number : Field F → Bytes → Outcome (Option F)
  read_number f value =
      if is_kind f.type kint1
      then (read_int 1 f.offset value >>= λ a. ok (some (of_int a)))
      else if is_kind f.type kint2
      then (read_int 2 f.offset value >>= λ a. ok (some (of_int a)))
      else if is_kind f.type kint4
      then (read_int 4 f.offset value >>= λ a. ok (some (of_int a)))
      else if is_kind f.type kint8
      then (read_int 8 f.offset value >>= λ a. ok (some (of_int a)))
      else if is_kind f.type kfloat
      then (read_bytes 4 (drop f.offset value) >>= λ r. ok (some (of_float_bytes r.0)))
      else if is_kind f.type kdouble
      then (read_bytes 8 (drop f.offset value) >>= λ r. ok (some (of_double_bytes r.0)))
      else ok none

  abbrev pub push_read : List (CNode F) → Option F → Outcome (List (CNode F))
  push_read d none = ok d
  push_read d (some a) = push_number D d a

  -- One node of a formula; a field that is no number pushes nothing.
  unfoldable pub formula_push :
      List (Field F) → Bytes → List (CNode F) → Node F → Outcome (List (CNode F))
  unfolding read_number
  formula_push fields value d x =
      if is_kind x.type kleft || is_kind x.type kright || is_four_type x.type
      then push_opt D d x.type
      else if is_digit_type x.type
      then push_number D d x.vd
      else (field_at fields x.id >>= λ f. read_number f value >>= λ a. push_read d a)

  unfoldable pub formula_loop :
      List (Field F) → Bytes → List (CNode F) → Expression F → Outcome (List (CNode F))
  formula_loop fields value d [] = ok d
  formula_loop fields value d (x ∷ xs) =
      formula_push fields value d x >>= λ d'. formula_loop fields value d' xs

  unfoldable pub formula_compute : List (Field F) → Bytes → Expression F → Outcome F
  unfolding formula_push formula_loop
  formula_compute fields value ex = formula_loop fields value [] ex >>= result D
