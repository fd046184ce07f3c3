-- ===== src/Client/Get.antt =====
-- client.cc: `parse_order` and `Client::get` up to the bytes that are sent. The buffer is not expanded:
-- a request that is longer than its capacity is written past the end.
pub mod Roundtrip
pub mod Sent
pub mod Sizes
pub mod Fields
use stoxdb.Prelude.{
  ℕ, zero, suc, ◌+◌, List, [], ◌∷◌, ◌++◌, map, Bool, true, false, ◌&&◌, ltb, ◌==◌, if◌then◌else◌,
  length, Option, none, some,
}
use stoxdb.Prelude.Int.{ℤ, pos, negsuc}
use stoxdb.Outcome.{Outcome, ok, ub}
use stoxdb.Base.{Bytes, same, strsplit, trim, tolower}
use stoxdb.Base.Bytes.{setint1, setint2, setint4, setchar2}
use stoxdb.Meta.{Field}
use stoxdb.Record.Request.{Order, Request, int16, field_ids}
use stoxdb.Server.{header_size}
use stoxdb.Client.{Client, getid, set_request_header}

-- `struct Request` of the client.
pub record Query : Type 0 where
  pub fields : Bytes
  pub keys : Bytes
  pub where_text : Bytes
  pub order : Bytes
  pub offset : ℤ
  pub size : ℤ

infixl 5 ◌>>=◌
abbrev pub ◌>>=◌ : {A B : Type 0} → Option A → (A → Option B) → Option B
none >>= f = none
some a >>= f = f a

-- A loop that pushes what a function answers for each item, and stops where it fails.
unfoldable pub collect : {A B : Type 0} → (A → Option B) → List A → Option (List B)
collect f [] = some []
collect f (x ∷ xs) = f x >>= λ y. collect f xs >>= λ ys. some (y ∷ ys)

-- The two loops over a segment: up to the first blank, and behind the blanks.
unfoldable pub until_blank : Bytes → Bytes × Bytes
until_blank [] = ([], [])
until_blank (c ∷ cs) =
    let rest = until_blank cs in if c == b' ' then ([], c ∷ cs) else (c ∷ rest.0, rest.1)

unfoldable pub skip_blanks : Bytes → Bytes
skip_blanks [] = []
skip_blanks (c ∷ cs) = let rest = skip_blanks cs in if c == b' ' then rest else c ∷ cs

abbrev pub bytes_desc : Bytes
bytes_desc = b'd' ∷ b'e' ∷ b's' ∷ b'c' ∷ []

abbrev pub bytes_asc : Bytes
bytes_asc = b'a' ∷ b's' ∷ b'c' ∷ []

-- One segment of the order: '1' or '2' in front of the name of the field.
unfoldable pub parse_segment : Bytes → Option Bytes
unfolding until_blank skip_blanks
parse_segment seg =
    let parts = until_blank (tolower (trim seg)) in
    let rest = skip_blanks parts.1 in
    if same rest bytes_desc
    then some (b'2' ∷ parts.0)
    else if length rest == 0
    then some (b'1' ∷ parts.0)
    else if same rest bytes_asc
    then some (b'1' ∷ parts.0)
    else none

unfoldable pub parse_order : Bytes → Option (List Bytes)
unfolding collect parse_segment
parse_order order = collect parse_segment (strsplit order b',')

unfoldable pub short_key : Bytes → Option Bytes
short_key seg = if ltb 64 (length (trim seg)) then none else some (trim seg)

unfoldable pub get_keys : Bytes → Option (List Bytes)
unfolding collect short_key
get_keys text = collect short_key (strsplit text b',')

abbrev pub some_fields : List ℤ → Option (List ℤ)
some_fields [] = none
some_fields (id ∷ ids) = some (id ∷ ids)

abbrev pub request_of : Query → List ℤ → List Bytes → List Order → Request
request_of req fields keys order = record {
  fields = fields;
  keys = keys;
  where_text = req.where_text;
  order = order;
  aggs = [];
  group = [];
  offset = req.offset;
  size = req.size;
}

module _ {F : Type 0} (c : Client F) where
  unfoldable pub field_id : Bytes → Option ℤ
  unfolding getid
  field_id name = getid c (tolower (trim name)) >>= λ sim. some (int16 sim.id)

  unfoldable pub choose_fields : Bytes → Option (List ℤ)
  unfolding collect field_id
  choose_fields text =
      if same text (b'*' ∷ [])
      then some (field_ids 0 (length c.fields))
      else collect field_id (strsplit text b',')

  -- The numbers of the fields; none at all are refused.
  unfoldable pub get_fields : Bytes → Option (List ℤ)
  get_fields text = choose_fields text >>= some_fields

  -- The sort key that stands behind the mark '1' or '2'.
  unfoldable pub order_key : Bytes → Option Order
  unfolding getid
  order_key [] = none
  order_key (t ∷ name) = getid c name >>= λ sim.
      some (record { id = int16 sim.id; type = pos (if t == b'1' then 1 else 2) })

  -- What the client asks for, with the numbers of the fields; `none` where it gives up.
  unfoldable pub get_request : Query → Option Request
  get_request req = get_fields req.fields >>= λ fields. get_keys req.keys >>= λ keys.
      parse_order req.order >>= λ segs.
      collect order_key segs >>= λ order. some (request_of req fields keys order)

-- A number of items and the items, one behind the other.
unfoldable pub write_items : {A : Type 0} → (A → Bytes) → List A → Bytes
write_items w [] = []
write_items w (x ∷ xs) = w x ++ write_items w xs

unfoldable pub write_list : {A : Type 0} → (A → Bytes) → List A → Bytes
unfolding write_items
write_list w xs = setint2 (pos (length xs)) ++ write_items w xs

abbrev pub write_order : Order → Bytes
write_order o = setint2 o.id ++ setint1 o.type

-- The body of the request.
unfoldable pub write_get : Request → Bytes
write_get r =
    write_list setint2 r.fields
    ++ (write_list setchar2 r.keys
        ++ (setchar2 r.where_text
            ++ (write_list write_order r.order ++ (setint4 r.offset ++ setint4 r.size))))

abbrev pub opt_get_number : ℕ
opt_get_number = 12

-- The header and the body, where the buffer has room for them.
unfoldable pub send_get : {F : Type 0} → Client F → ℕ → Option Request → Outcome (Option Bytes)
send_get c capacity none = ok none
send_get c capacity (some r) =
    let body = write_get r in
    if ltb capacity (header_size + length body)
    then ub
    else ok (some (set_request_header c (length body) opt_get_number ++ body))

-- `get` up to `Send`: the bytes that are sent, from a buffer with a capacity.
unfoldable pub get : {F : Type 0} → Client F → ℕ → Query → Outcome (Option Bytes)
get c capacity req = send_get c capacity (get_request c req)
