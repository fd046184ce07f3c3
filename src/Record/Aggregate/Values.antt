-- ===== src/Record/Aggregate/Values.antt =====
-- record.cc: `make_key_by_group`, and the values that `opt_agg` keeps for a group: `agg_item_t`, and what a
-- record does to it. The number of records of a group is below 2^31. The variable `a` of a string was not
-- assigned: adding it is undefined behaviour.
use stoxdb.Prelude.{
  ℕ, suc, ◌+◌, ◌^◌, ◌%◌, List, [], ◌∷◌, ◌++◌, if◌then◌else◌, length, drop, Option, none, some,
}
use stoxdb.Prelude.Int.{ℤ, pos, negsuc, ◌+ℤ◌}
use stoxdb.Outcome.{Outcome, ok, err, ub, ◌>>=◌, Message}
use stoxdb.Double.{Double}
use stoxdb.Base.{Bytes}
use stoxdb.Base.Bytes.{read_bytes, of_word}
use stoxdb.Expression.{Kind, kchar, is_kind}
use stoxdb.Meta.{Field}
use stoxdb.Record.{read_int, read_number}
use stoxdb.Record.Where.{bytes_lt, eq_ℤ}
use stoxdb.Record.Request.{Agg}
use stoxdb.Record.Order.{field_of}

-- `agg_item_t`.
pub record AggItem (F : Type 0) : Type 0 where
  pub aid : ℤ
  pub fid : ℤ
  pub ftype : Kind
  pub bytes : ℤ
  pub count : ℕ
  pub sum : F
  pub max_d : F
  pub min_d : F
  pub max_s : Bytes
  pub min_s : Bytes

-- `AggList`.
abbrev pub AggList : Type 0 → Type 0
AggList F = List (AggItem F)

-- `string(p, n)` for a signed length.
unfoldable pub take_text : ℤ → Bytes → Outcome Bytes
take_text (negsuc n) p = err Message.length_error
take_text (pos n) p = read_bytes n p >>= λ r. ok r.0

module _ {F : Type 0} (fields : List (Field F)) where
  -- A string with its length in front, or the bytes of a number.
  unfoldable pub group_bytes : Field F → Bytes → Outcome Bytes
  group_bytes f value =
      if is_kind f.type kchar
      then (read_int 2 f.offset value >>= λ l. take_text (l +ℤ pos 2) (drop f.offset value))
      else take_text (pos f.size) (drop f.offset value)

  -- `make_key_by_group`.
  unfoldable pub make_key_by_group : List ℤ → Bytes → Outcome Bytes
  make_key_by_group [] value = ok []
  make_key_by_group (id ∷ ids) value = field_of fields id >>= λ f.
      group_bytes f value >>= λ bs. make_key_by_group ids value >>= λ rest. ok (bs ++ rest)

-- `2 + s.size()` as an `int16_t`.
abbrev pub text_size : Bytes → ℤ
text_size s = of_word 2 ((2 + length s) % 256 ^ 2)

abbrev pub larger_text : Bytes → Bytes → Bytes
larger_text x b = if bytes_lt x b then b else x

abbrev pub lesser_text : Bytes → Bytes → Bytes
lesser_text x b = if bytes_lt b x then b else x

module _ (D : Double) (fields : List (Field D.F)) where
  open D use {F, of_int, add, lt}

  -- The list that each group starts from.
  unfoldable pub start_items : List Agg → Outcome (AggList F)
  start_items [] = ok []
  start_items (x ∷ xs) = field_of fields x.fid >>= λ f. start_items xs >>= λ rest. ok (
      record {
        aid = x.aid;
        fid = x.fid;
        ftype = f.type;
        bytes = pos 8;
        count = 0;
        sum = of_int (pos 0);
        max_d = of_int (pos 0);
        min_d = of_int (pos 0);
        max_s = [];
        min_s = [];
      }
      ∷ rest)

  -- `b`, which stays empty for a number.
  unfoldable pub text_operand : Field F → Bytes → Outcome Bytes
  text_operand f value =
      if is_kind f.type kchar
      then (read_int 2 f.offset value >>= λ l. take_text l (drop (f.offset + 2) value))
      else ok []

  -- What is done with `a`.
  abbrev pub with_number : Option F → (F → AggItem F) → Outcome (AggItem F)
  with_number none use_number = ub
  with_number (some a) use_number = ok (use_number a)

  abbrev pub larger : F → F → F
  larger x a = if lt x a then a else x

  abbrev pub lesser : F → F → F
  lesser x a = if lt a x then a else x

  -- The functions 2 and 3 add, 4 takes the larger and 5 the smaller.
  unfoldable pub accumulate : Field F → Option F → Bytes → AggItem F → Outcome (AggItem F)
  accumulate f a b v =
      if eq_ℤ v.aid (pos 2)
      then with_number a (λ x. record v { sum = add v.sum x })
      else if eq_ℤ v.aid (pos 3)
      then with_number a (λ x. record v { sum = add v.sum x })
      else if eq_ℤ v.aid (pos 4)
      then (if is_kind f.type kchar
          then ok (record v {
            max_s = larger_text v.max_s b;
            bytes = text_size (larger_text v.max_s b);
          })
          else with_number a (λ x. record v { max_d = larger v.max_d x }))
      else if eq_ℤ v.aid (pos 5)
      then (if is_kind f.type kchar
          then ok (record v {
            min_s = lesser_text v.min_s b;
            bytes = text_size (lesser_text v.min_s b);
          })
          else with_number a (λ x. record v { min_d = lesser v.min_d x }))
      else ok v

  unfoldable pub update_item : Bytes → AggItem F → Outcome (AggItem F)
  update_item value v = field_of fields v.fid >>= λ f. read_number D f value >>= λ a.
      text_operand f value >>= λ b. accumulate f a b (record v { count = suc v.count })

  unfoldable pub update_items : Bytes → AggList F → Outcome (AggList F)
  update_items value [] = ok []
  update_items value (v ∷ vs) =
      update_item value v >>= λ w. update_items value vs >>= λ ws. ok (w ∷ ws)
