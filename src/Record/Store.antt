-- ===== src/Record/Store.antt =====
-- record.cc: `data_` and `setone`. The map is a list of pairs; its order stands for the order in which
-- the map is walked, which the source leaves open, and a new key is put at the end. A set of field numbers
-- is an ascending list. A copy past the end of a record is undefined behaviour.
use stoxdb.Prelude.{
  ℕ, zero, suc, ◌+◌, ◌-◌, List, [], ◌∷◌, ◌++◌, Bool, true, false, ltb, ◌==◌, if◌then◌else◌, length,
  take, drop, replicate, Option, none, some,
}
use stoxdb.Prelude.Int.{ℤ, pos, negsuc, ltb_ℤ, ◌+ℤ◌}
use stoxdb.Outcome.{Outcome, ok, ub, hang, ◌>>=◌}
use stoxdb.Double.{Double}
use stoxdb.Base.{Bytes, same}
use stoxdb.Base.Bytes.{read_bytes, getint2, setint, to_word, of_word}
use stoxdb.Expression.{Kind, kint1, kint2, kint4, kint8, kfloat, kdouble, kchar, is_kind}
use stoxdb.Meta.{Field, Meta}
use stoxdb.Record.{field_at, formula_compute}
use stoxdb.Record.Where.{eq_ℤ}

-- The records by their keys.
abbrev pub Data : Type 0
Data = List (Bytes × Bytes)

-- `data_.find(key)`.
unfoldable pub find_record : Bytes → Data → Option Bytes
find_record key [] = none
find_record key ((k, v) ∷ m) = if same k key then some v else find_record key m

-- The record of a key that is there, replaced.
unfoldable pub put_record : Bytes → Bytes → Data → Data
put_record key value [] = (key, value) ∷ []
put_record key value ((k, v) ∷ m) =
    let rest = put_record key value m in if same k key then (k, value) ∷ m else (k, v) ∷ rest

-- `memcpy(value + offset, ...)`.
unfoldable pub write_at : ℕ → Bytes → Bytes → Outcome Bytes
write_at offset bs value =
    if ltb (length value) (offset + length bs)
    then ub
    else ok (take offset value ++ (bs ++ drop (offset + length bs) value))

-- `std::set<int>::insert`.
unfoldable pub insert_id : ℕ → List ℕ → List ℕ
insert_id a [] = a ∷ []
insert_id a (x ∷ xs) =
    let rest = insert_id a xs in if a == x then x ∷ xs else if ltb a x then a ∷ x ∷ xs else x ∷ rest

unfoldable pub insert_ids : List ℕ → List ℕ → List ℕ
unfolding insert_id
insert_ids [] s = s
insert_ids (a ∷ as_) s = insert_ids as_ (insert_id a s)

-- `n` bytes from a pointer, stored in a record; the pointer behind them and the record.
unfoldable pub copy_bytes : ℕ → Bytes → ℕ → Bytes → Outcome (Bytes × Bytes)
copy_bytes n p offset value = do r ← read_bytes n p; v ← write_at offset r.0 value; ok (r.1, v)

-- The size of what follows for a field: of a string, two more than the length in front, which is not
-- compared with the size of the field; as a size of `memcpy` a negative number is out of bounds.
unfoldable pub value_size : {F : Type 0} → Field F → Bytes → Outcome ℕ
value_size f p =
    if is_kind f.type kchar
    then (getint2 p >>= λ l. elim (l.0 +ℤ pos 2) [ pos n ↦ ok n | negsuc n ↦ ub ])
    else ok f.size

-- `p - byte < size`.
unfoldable pub is_before : Bytes → Bytes → ℤ → Bool
is_before byte p size = ltb_ℤ (pos (length byte - length p)) size

-- What the loop of `setone` works on: the pointer, the record and the dependants of what was set.
pub record Progress : Type 0 where
  pub rest : Bytes
  pub value : Bytes
  pub decide : List ℕ

module _ {F : Type 0} (fields : List (Field F)) where
  -- One `[id][value]`; `none` for a field number that is refused. The test lets the number of the fields
  -- itself through, behind the last one.
  unfoldable pub set_value : Progress → ℤ × Bytes → Outcome (Option Progress)
  set_value s (negsuc i, p) = ok none
  set_value s (pos i, p) = elim (ltb (length fields) i) [
    | true ↦ ok none
    | false ↦ field_at fields i >>= λ f. value_size f p >>= λ sz.
        copy_bytes sz p f.offset s.value >>= λ c.
        ok (some (record { rest = c.0; value = c.1; decide = insert_ids f.decide s.decide }))
  ]

  unfoldable pub set_field : Progress → Outcome (Option Progress)
  set_field s = getint2 s.rest >>= set_value s

  -- The loop, on fuel: the answer, and where it ended.
  unfoldable pub set_loop : ℤ → Bytes → ℕ → Progress → Outcome (Bool × Progress)
  set_loop size byte zero s = elim (is_before byte s.rest size) [
    | false ↦ ok (true, s)
    | true ↦ hang
  ]
  set_loop size byte (suc n) s = elim (is_before byte s.rest size) [
    | false ↦ ok (true, s)
    | true ↦ set_field s >>= λ r. elim r [ none ↦ ok (false, s) | some t ↦ set_loop size byte n t ]
  ]

unfoldable pub store_value : {F : Type 0} → Field F → Bytes → Option Bytes → Outcome Bytes
store_value f value none = ok value
store_value f value (some t) = copy_bytes f.size t f.offset value >>= λ c. ok c.1

module _ (D : Double) where
  open D use {F, to_int64, to_float_bytes, to_double_bytes}

  -- `(intN_t)d`; out of range it is undefined behaviour.
  unfoldable pub int_bytes : ℕ → F → Outcome Bytes
  int_bytes w d = elim (to_int64 d) [
    | none ↦ ub
    | some v ↦ if eq_ℤ (of_word w (to_word w v)) v then ok (setint w v) else ub
  ]

  -- What is stored for the value of a formula; for a string nothing.
  unfoldable pub value_bytes : Kind → F → Outcome (Option Bytes)
  unfolding int_bytes
  value_bytes k d =
      if is_kind k kint1
      then (int_bytes 1 d >>= λ t. ok (some t))
      else if is_kind k kint2
      then (int_bytes 2 d >>= λ t. ok (some t))
      else if is_kind k kint4
      then (int_bytes 4 d >>= λ t. ok (some t))
      else if is_kind k kint8
      then (int_bytes 8 d >>= λ t. ok (some t))
      else if is_kind k kfloat
      then ok (some (to_float_bytes d))
      else if is_kind k kdouble
      then ok (some (to_double_bytes d))
      else ok none

  module _ (fields : List (Field F)) where
    -- One formula, computed and stored.
    unfoldable pub compute_field : Field F → Bytes → Outcome Bytes
    compute_field f value = formula_compute D fields value f.formula >>= λ d.
        value_bytes f.type d >>= store_value f value

    -- One level of dependants, and the next level.
    unfoldable pub compute_level : List ℕ → Bytes → List ℕ → Outcome (Bytes × List ℕ)
    compute_level [] value next = ok (value, next)
    compute_level (id ∷ ids) value next = field_at fields id >>= λ f.
        compute_field f value >>= λ v. compute_level ids v (insert_ids f.decide next)

    -- The levels, on fuel.
    unfoldable pub compute_levels : ℕ → List ℕ → Bytes → Outcome Bytes
    compute_levels n [] value = ok value
    compute_levels zero (id ∷ ids) value = hang
    compute_levels (suc n) (id ∷ ids) value =
        compute_level (id ∷ ids) value [] >>= λ r. compute_levels n r.1 r.0

  -- The record of a key, or a new one of zero bytes.
  abbrev pub old_record : Meta F → Data → Bytes → Bytes
  old_record meta m key = elim (find_record key m) [
    | none ↦ replicate meta.record_size 0
    | some v ↦ v
  ]

  -- What follows the loop: the formulas, and the record in its place. What a refused update has stored
  -- stays.
  unfoldable pub end_update : Meta F → ℕ → Data → Bytes → Bool × Progress → Outcome (Bool × Data)
  end_update meta fuel m key (false, s) = ok (false, put_record key s.value m)
  end_update meta fuel m key (true, s) =
      compute_levels meta.fields fuel s.decide s.value >>= λ v. ok (true, put_record key v m)

  -- `setone` with the levels on fuel: the answer and the map. Each round of the first loop reads at least
  -- two bytes.
  unfoldable pub setone : Meta F → ℕ → Data → Bytes → Bytes → ℤ → Outcome (Bool × Data)
  setone meta fuel m key byte size =
      if ltb 64 (length key)
      then ok (false, m)
      else (set_loop meta.fields size byte (length byte)
            (record { rest = byte; value = old_record meta m key; decide = [] })
          >>= end_update meta fuel m key)
