-- ===== src/Client/Get/Sent.antt =====
-- client.cc: the bytes of `Client::get` for any query, from a client that knows the fields.
use stoxdb.Prelude.{
  some-inj, ℕ, ◌+◌, ◌^◌, ◌≤◌, ◌<◌, List, [], ◌++◌, ltb, ◌≡◌, refl, ap, ◌∙◌, length, arith,
  length-append, Option, none, some, subst,
}
use stoxdb.Prelude.Int.{ℤ, pos}
use stoxdb.Outcome.{Outcome, ok, if_both}
use stoxdb.Base.{Bytes}
use stoxdb.Base.Bytes.{setint, setint4}
use stoxdb.Base.Bytes.Roundtrip.{InRange, length-setint}
use stoxdb.Meta.{Field}
use stoxdb.Record.Request.{Order, Request, parse_get_request}
use stoxdb.Server.{header_size}
use stoxdb.Client.{Client, update_fields, set_request_header}
use stoxdb.Client.Get.{
  Query, collect, parse_order, get_fields, get_keys, order_key, request_of, get_request, send_get,
  write_get, get, opt_get_number,
}
use stoxdb.Client.Get.Roundtrip.{Fits, parse_get_request-write_get}
use stoxdb.Client.Get.Fields.{
  bind-some, collect-AllOf, Below, map_fields-Below, order_key-IsKey, get_fields-IsId,
  get_keys-short,
}
use stoxdb.Client.Get.Sizes.{length-write_get}

-- The request fits the format and belongs to no other operation.
abbrev Sends : ℕ → Request → Type 0
Sends n r = length (write_get r) < 2 ^ 15 → Fits n r × (record r { aggs = []; group = [] } ≡ r)

abbrev pub InRanges : Query → Type 0
InRanges req =
    (length req.where_text < 2 ^ 15) × InRange (2 ^ 31) req.offset × InRange (2 ^ 31) req.size

module _ {F : Type 0} (c : Client F) (n : ℕ) (b : n < 2 ^ 15) (m : Below n c.fname_map)
    (l : length c.fields ≤ n) (req : Query) (ranges : InRanges req) where
  request_of-Sends :
      {fields : List ℤ} {keys : List Bytes} {order : List Order} (segs : List Bytes)
      → get_fields c req.fields ≡ some fields
      → get_keys req.keys ≡ some keys
      → collect (order_key c) segs ≡ some order
      → Sends n (request_of req fields keys order)
  request_of-Sends {fields} {keys} {order} segs ef ek eo h =
      let r = request_of req fields keys order in
      let known = get_fields-IsId c n b m l req.fields ef in
      let counts = length-write_get r in
      (
        record {
          known = known.0;
          some_field = known.1;
          field_count = omega (arith, counts.0, h);
          short = get_keys-short req.keys ek;
          key_count = omega (arith, counts.1, h);
          where_size = ranges.0;
          sorted_by = collect-AllOf (order_key c) (order_key-IsKey c n b m) segs eo;
          order_count = omega (arith, counts.2, h);
          offset_range = ranges.1;
          size_range = ranges.2;
        },
        refl,
      )

  get_request-Sends : {r : Request} → get_request c req ≡ some r → Sends n r
  unfolding get_request
  get_request-Sends {r} e =
      let (ids, ei, e1) = bind-some (get_fields c req.fields) _ e in
      let (keys, ek, e2) = bind-some (get_keys req.keys) _ e1 in
      let (segs, es, e3) = bind-some (parse_order req.order) _ e2 in
      let (order, eo, e4) = bind-some (collect (order_key c) segs) _ e3 in
      subst (Sends n) (some-inj e4) (request_of-Sends segs ei ek eo)

pub length-set_request_header :
    {F : Type 0} (c : Client F) (size opt : ℕ)
    → length (set_request_header c size opt) ≡ header_size
unfolding set_request_header setint
length-set_request_header c size opt = omega (
  arith,
  length-append (setint4 c.magic) (setint4 (pos size) ++ setint4 (pos opt)),
  length-append (setint4 (pos size)) (setint4 (pos opt)),
  length-setint 4 c.magic,
  length-setint 4 (pos size),
  length-setint 4 (pos opt),
)

-- What is sent fits the buffer and consists of a header and the body.
Sent : {F : Type 0} → Client F → ℕ → Request → Bytes → Type 0
Sent c capacity r bytes =
    (header_size + length (write_get r) ≤ capacity)
    × (set_request_header c (length (write_get r)) opt_get_number ++ write_get r ≡ bytes)

ok-inj : {A : Type 0} {a b : A} → Path (Outcome A) (ok a) (ok b) → a ≡ b
ok-inj h = cc

send_get-Sent :
    {F : Type 0} (c : Client F) (capacity : ℕ) (o : Option Request) {bytes : Bytes}
    → send_get c capacity o ≡ ok (some bytes)
    → (r : Request) × (o ≡ some r) × Sent c capacity r bytes
unfolding send_get Sent
send_get-Sent c capacity none = λ e. absurd (cc)
send_get-Sent c capacity (some r) {bytes} =
    if_both (λ x. x ≡ ok (some bytes) → (q : Request) × (some r ≡ some q) × Sent c capacity q bytes)
      (ltb capacity (header_size + length (write_get r))) (λ _ e. absurd (cc))
      (λ h e. (r, refl, (ground (arith, h), some-inj (ok-inj e))))

-- A client that knows the server's fields, with a buffer of less than 32 KB and a condition of less
-- than 32 KB, and an offset and a size of four bytes: whatever bytes it sends for a query, the server
-- parses them, without an access outside, as the request that the client made of the query.
pub get-parse_get_request :
    {F : Type 0} (c : Client F) (fields : List (Field F)) (capacity : ℕ) (req : Query)
    {bytes : Bytes}
    → length fields < 2 ^ 15
    → capacity < 2 ^ 15
    → InRanges req
    → get (update_fields c fields) capacity req ≡ ok (some bytes)
    → (r : Request) × (get_request (update_fields c fields) req ≡ some r)
      × (parse_get_request (length fields) bytes (length bytes) ≡ ok r)
unfolding get update_fields Sent
get-parse_get_request c fields capacity req b k ranges e =
    let c' = update_fields c fields in
    let n = length fields in
    let (r, er, (room, text)) = send_get-Sent c' capacity (get_request c' req) e in
    let m : Below n c'.fname_map = map_fields-Below n 0 fields [] (omega arith) tt in
    let (fits, whole) = get_request-Sends c' n b m (omega arith) req ranges er (omega arith) in
    let header = set_request_header c' (length (write_get r)) opt_get_number in
    let parsed =
      parse_get_request-write_get n r header b fits
        (length-set_request_header c' (length (write_get r)) opt_get_number) in
    (r, er, subst (λ bs. parse_get_request n bs (length bs) ≡ ok r) text (parsed ∙ ap ok whole))
