-- ===== src/Record/Request.antt =====
-- record.h and record.cc: `request_t` and the parsers of the GET, DEL and AGG requests. A pointer is the
-- rest of the buffer from it on, so that `p - buff` is a difference of lengths; the number of the fields
-- is `n`. What a refused parse leaves in `request_` is not modelled: each parser clears what it reads.
use stoxdb.Prelude.{
  ℕ, zero, suc, ◌-◌, ◌%◌, ◌^◌, List, [], ◌∷◌, Bool, false, ◌||◌, not, ltb, ◌==◌, length, drop,
}
use stoxdb.Prelude.Int.{ℤ, pos, negsuc, pos_part, ltb_ℤ}
use stoxdb.Outcome.{Outcome, ok, err, ub, ◌>>=◌, ◌>>◌, refuse_if, Message}
use stoxdb.Base.{Bytes}
use stoxdb.Base.Bytes.{of_word, read_bytes, getint1, getint2, getint4, getchar2}
use stoxdb.Server.{header_size}

-- `order_t`: a field and 1 for ascending order.
pub record Order : Type 0 where
  pub id : ℤ
  pub type : ℤ

-- `agg_t`: a function and a field.
pub record Agg : Type 0 where
  pub aid : ℤ
  pub fid : ℤ

-- `request_t`.
pub record Request : Type 0 where
  pub fields : List ℤ
  pub keys : List Bytes
  pub where_text : Bytes
  pub order : List Order
  pub aggs : List Agg
  pub group : List ℤ
  pub offset : ℤ
  pub size : ℤ

-- The loops that read as many items as were announced; a negative number announces none.
unfoldable pub read_many :
    {A : Type 0} → (Bytes → Outcome (A × Bytes)) → ℕ → Bytes → Outcome (List A × Bytes)
read_many rd zero p = ok ([], p)
read_many rd (suc k) p = rd p >>= λ r. read_many rd k r.1 >>= λ s. ok (r.0 ∷ s.0, s.1)

unfoldable pub read_list :
    {A : Type 0} → (Bytes → Outcome (A × Bytes)) → Bytes → Outcome (List A × Bytes)
unfolding read_many
read_list rd p = getint2 p >>= λ c. read_many rd (pos_part c.0) c.1

-- A string behind its length of two signed bytes; a negative length throws.
unfoldable pub read_string : Bytes → Outcome (Bytes × Bytes)
read_string p =
    getint2 p >>= λ c. elim c.0 [ pos l ↦ read_bytes l c.1 | negsuc l ↦ err Message.length_error ]

-- `if (p - buff > size) return false`.
unfoldable pub within : Bytes → Bytes → ℕ → Outcome (Unit {0})
within buff p size = refuse_if (ltb size (length buff - length p)) Message.protocal_error

-- `(int16_t)n`.
abbrev pub int16 : ℕ → ℤ
int16 n = of_word 2 (n % 256 ^ 2)

unfoldable pub is_bad_id : ℤ → ℕ → ℤ → Bool
is_bad_id least n id = ltb_ℤ id least || ltb_ℤ (int16 n) id

-- A field number from `least` on; the number of the fields itself is let through.
unfoldable pub read_id : ℤ → ℕ → Bytes → Outcome (ℤ × Bytes)
unfolding is_bad_id
read_id least n p = do r ← getint2 p; refuse_if (is_bad_id least n r.0) Message.protocal_error; ok r

abbrev pub field_ids : ℕ → ℕ → List ℤ
field_ids i zero = []
field_ids i (suc k) = int16 i ∷ field_ids (suc i) k

-- -1 in front stands for all fields; `fields[0]` of no fields is undefined behaviour.
unfoldable pub expand_fields : ℕ → List ℤ → Outcome (List ℤ)
expand_fields n [] = ub
expand_fields n (negsuc zero ∷ ids) = ok (field_ids 0 n)
expand_fields n (id ∷ ids) = ok (id ∷ ids)

unfoldable pub read_order : Bytes → Outcome (Order × Bytes)
read_order p = do
  id ← getint2 p
  type ← getint1 id.1
  ok (record { id = id.0; type = type.0 }, type.1)

unfoldable pub read_agg : ℕ → Bytes → Outcome (Agg × Bytes)
unfolding read_id
read_agg n p = do
  aid ← getint2 p
  fid ← read_id (pos 0) n aid.1
  ok (record { aid = aid.0; fid = fid.0 }, fid.1)

abbrev is_zero : ℤ → Bool
is_zero (pos n) = n == 0
is_zero (negsuc n) = false

-- The list at the head of a GET or AGG request, refused where it announces no item.
unfoldable pub read_some :
    {A : Type 0} → (Bytes → Outcome (A × Bytes)) → Bytes → Outcome (List A × Bytes)
unfolding read_many
read_some rd p = do
  c ← getint2 p
  refuse_if (is_zero c.0) Message.protocal_error
  read_many rd (pos_part c.0) c.1

unfoldable pub parse_get_request : ℕ → Bytes → ℕ → Outcome Request
parse_get_request n buff size = do
  let p = drop header_size buff
  refuse_if (ltb size header_size) Message.protocal_error
  ids ← read_some (read_id (negsuc 0) n) p
  fields ← expand_fields n ids.0
  keys ← read_list getchar2 ids.1
  where_text ← read_string keys.1
  within buff where_text.1 size
  order ← read_list read_order where_text.1
  within buff order.1 size
  offset ← getint4 order.1
  limit ← getint4 offset.1
  refuse_if (not (length buff - length limit.1 == size)) Message.protocal_error
  ok (record {
    fields = fields;
    keys = keys.0;
    where_text = where_text.0;
    order = order.0;
    aggs = [];
    group = [];
    offset = offset.0;
    size = limit.0;
  })

unfoldable pub parse_del_request : Bytes → ℕ → Outcome Request
parse_del_request buff size = do
  refuse_if (ltb size header_size) Message.protocal_error
  keys ← read_list getchar2 (drop header_size buff)
  where_text ← read_string keys.1
  within buff where_text.1 size
  ok (record {
    fields = [];
    keys = keys.0;
    where_text = where_text.0;
    order = [];
    aggs = [];
    group = [];
    offset = pos 0;
    size = negsuc 0;
  })

unfoldable pub parse_agg_request : ℕ → Bytes → ℕ → Outcome Request
parse_agg_request n buff size = do
  refuse_if (ltb size header_size) Message.protocal_error
  aggs ← read_some (read_agg n) (drop header_size buff)
  where_text ← read_string aggs.1
  within buff where_text.1 size
  group ← read_list (read_id (pos 0) n) where_text.1
  within buff group.1 size
  ok (record {
    fields = [];
    keys = [];
    where_text = where_text.0;
    order = [];
    aggs = aggs.0;
    group = group.0;
    offset = pos 0;
    size = negsuc 0;
  })
