-- ===== src/Record/Order.antt =====
-- record.cc: `compare`. Its second test for an eight-byte integer is never reached: the first one, for
-- the same kind, reads one byte.
pub mod Texts
use stoxdb.Prelude.{
  ℕ, List, [], ◌∷◌, Bool, true, false, ltb, ◌==◌, if◌then◌else◌, drop, Option, none, some,
}
use stoxdb.Prelude.Int.{ℤ, pos, negsuc, ltb_ℤ}
use stoxdb.Outcome.{Outcome, ok, ub, ◌>>=◌}
use stoxdb.Double.{Double}
use stoxdb.Base.{Bytes, same}
use stoxdb.Base.Bytes.{read_bytes}
use stoxdb.Expression.{kint2, kint4, kint8, kfloat, kdouble, kchar, is_kind}
use stoxdb.Meta.{Field}
use stoxdb.Record.{read_int, field_at}
use stoxdb.Record.Where.{bytes_lt, eq_ℤ}
use stoxdb.Record.Request.{Order}

-- `fields_[id]` for a signed number.
abbrev pub field_of : {F : Type 0} → List (Field F) → ℤ → Outcome (Field F)
field_of fields (pos i) = field_at fields i
field_of fields (negsuc i) = ub

-- `ot.type == 1 ? a < b : a > b`.
abbrev pub directed : ℤ → Bool → Bool → Bool
directed type less greater = if eq_ℤ type (pos 1) then less else greater

unfoldable pub compare_ints : ℕ → ℕ → ℤ → Bytes → Bytes → Outcome Bool
compare_ints w offset type left right = do
  a ← read_int w offset left
  b ← read_int w offset right
  ok (directed type (ltb_ℤ a b) (ltb_ℤ b a))

abbrev pub smaller : ℤ → ℤ → ℤ
smaller a b = if ltb_ℤ a b then a else b

-- `memcmp` over the shorter of two lengths, then the lengths.
unfoldable pub compare_bytes : ℤ → ℤ → ℤ → Bytes → Bytes → Outcome Bool
compare_bytes type a b left right = elim (smaller a b) [
  | negsuc n ↦ ub
  | pos n ↦ read_bytes n left >>= λ l. read_bytes n right >>= λ r. ok (
      if same l.0 r.0
      then directed type (ltb_ℤ a b) (ltb_ℤ b a)
      else directed type (bytes_lt l.0 r.0) (bytes_lt r.0 l.0))
]

unfoldable pub compare_texts : ℕ → ℤ → Bytes → Bytes → Outcome Bool
compare_texts offset type left right = read_int 2 offset left >>= λ a.
    read_int 2 offset right >>= λ b.
    compare_bytes type a b (drop 2 (drop offset left)) (drop 2 (drop offset right))

module _ (D : Double) (fields : List (Field D.F)) where
  open D use {lt, of_float_bytes, of_double_bytes}

  unfoldable pub compare_doubles : ℕ → (Bytes → D.F) → ℕ → ℤ → Bytes → Bytes → Outcome Bool
  compare_doubles w of_bytes offset type left right = do
    a ← read_bytes w (drop offset left)
    b ← read_bytes w (drop offset right)
    ok (directed type (lt (of_bytes a.0) (of_bytes b.0)) (lt (of_bytes b.0) (of_bytes a.0)))

  -- One key; `none` for a field of another kind, where the loop goes on to the next key.
  unfoldable pub compare_key : Field D.F → ℤ → Bytes → Bytes → Option (Outcome Bool)
  compare_key f type left right =
      if is_kind f.type kint8
      then some (compare_ints 1 f.offset type left right)
      else if is_kind f.type kint2
      then some (compare_ints 2 f.offset type left right)
      else if is_kind f.type kint4
      then some (compare_ints 4 f.offset type left right)
      else if is_kind f.type kfloat
      then some (compare_doubles 4 of_float_bytes f.offset type left right)
      else if is_kind f.type kdouble
      then some (compare_doubles 8 of_double_bytes f.offset type left right)
      else if is_kind f.type kchar
      then some (compare_texts f.offset type left right)
      else none

  unfoldable pub compare : List Order → Bytes → Bytes → Outcome Bool
  compare [] left right = ok false
  compare (o ∷ os) left right =
      let rest = compare os left right in
      field_of fields o.id >>= λ f. elim (compare_key f o.type left right) [
        | some r ↦ r
        | none ↦ rest
      ]
