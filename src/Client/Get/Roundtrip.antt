-- ===== src/Client/Get/Roundtrip.antt =====
-- The bytes of `Client::get` in client.cc, read by `parse_get_request` of record.cc.
use native.Mathlib.Nat.{mod-eq_of_lt}
use stoxdb.Prelude.{
  ℕ, suc, ◌-◌, ◌^◌, ◌≤◌, ◌<◌, List, [], ◌∷◌, ◌++◌, true, false, ◌==◌, ◌≡◌, refl, sym, ap, ◌∙◌,
  length, drop, drop-length, arith, length-append, append_assoc, append-nil, ◌≢◌, subst, le→ltb,
  lt→ltb,
}
use stoxdb.Prelude.Int.{ℤ, pos, negsuc}
use stoxdb.Outcome.{Outcome, ok}
use stoxdb.Base.{Bytes}
use stoxdb.Base.Bytes.{
  setint, setint1, setint2, setint4, setchar2, getint4, getchar2, of_word, to_word, setchar,
}
use stoxdb.Base.Bytes.Roundtrip.{
  InRange, getint-setint, getchar-setchar, take-length, read_bytes-append,
}
use stoxdb.Record.Request.{
  Order, Request, int16, read_many, read_list, read_some, read_string, read_id, is_bad_id,
  read_order, within, expand_fields, parse_get_request,
}
use stoxdb.Server.{header_size}
use stoxdb.Client.Get.{write_items, write_list, write_order, write_get}

-- Each element satisfies a predicate.
abbrev pub AllOf : {A : Type 0} → (A → Type 0) → List A → Type 0
AllOf P [] = Unit {0}
AllOf P (x ∷ xs) = P x × AllOf P xs

suc-nonzero : (n : ℕ) → (suc n == 0) ≡ false
suc-nonzero n = ground arith

module _ {A : Type 0} (rd : Bytes → Outcome (A × Bytes)) (w : A → Bytes) where
  -- A written item is read back.
  abbrev Reads : A → Type 0
  Reads x = (rest : Bytes) → rd (w x ++ rest) ≡ ok (x, rest)

  read_many-write_items :
      (xs : List A) (rest : Bytes)
      → AllOf Reads xs
      → read_many rd (length xs) (write_items w xs ++ rest) ≡ ok (xs, rest)
  unfolding read_many write_items
  read_many-write_items [] rest h = refl
  read_many-write_items (x ∷ xs) rest h =
      rw (append_assoc, h.0 (write_items w xs ++ rest), read_many-write_items xs rest h.1)

  read_list-write_list :
      (xs : List A) (rest : Bytes)
      → AllOf Reads xs
      → length xs < 2 ^ 15
      → read_list rd (write_list w xs ++ rest) ≡ ok (xs, rest)
  unfolding read_list write_list
  read_list-write_list xs rest h k = rw (
    append_assoc,
    getint-setint 2 (2 ^ 15) (pos (length xs)) (write_items w xs ++ rest) refl k,
    read_many-write_items xs rest h,
  )

  read_some-write_list :
      (xs : List A) (rest : Bytes)
      → AllOf Reads xs
      → length xs < 2 ^ 15
      → xs ≢ []
      → read_some rd (write_list w xs ++ rest) ≡ ok (xs, rest)
  unfolding read_some write_list
  read_some-write_list [] rest h k n = absurd (n refl)
  read_some-write_list (x ∷ xs) rest h k n = rw (
    append_assoc,
    getint-setint 2 (2 ^ 15) (pos (length (x ∷ xs))) (write_items w (x ∷ xs) ++ rest) refl k,
    suc-nonzero (length xs),
    read_many-write_items (x ∷ xs) rest h,
  )

pub setchar2-setint : (s : Bytes) → length s < 2 ^ 15 → setchar2 s ≡ setint2 (pos (length s)) ++ s
unfolding setchar setint to_word
setchar2-setint s h =
    let small : length s < 256 ^ 2 = omega arith in rw (mod-eq_of_lt small, take-length s)

read_string-setchar2 :
    (s rest : Bytes) → length s < 2 ^ 15 → read_string (setchar2 s ++ rest) ≡ ok (s, rest)
unfolding read_string
read_string-setchar2 s rest h = rw (
  setchar2-setint s h,
  append_assoc,
  getint-setint 2 (2 ^ 15) (pos (length s)) (s ++ rest) refl h,
  read_bytes-append s rest,
)

-- A field number that the server lets pass.
abbrev pub IsId : ℕ → ℤ → Type 0
IsId n id = (i : ℕ) × (id ≡ pos i) × (i < n)

pub int16-pos : (n : ℕ) → n < 2 ^ 15 → int16 n ≡ pos n
unfolding of_word
int16-pos n h =
    let small : n < 256 ^ 2 = omega arith in rw (mod-eq_of_lt small, lt→ltb n (2 ^ 15) h)

is_bad_id-pos : (n i : ℕ) → n < 2 ^ 15 → i < n → is_bad_id (negsuc 0) n (pos i) ≡ false
unfolding is_bad_id
is_bad_id-pos n i h k = rw (int16-pos n h) (ground arith)

read_id-setint2 :
    (n : ℕ) (id : ℤ) → n < 2 ^ 15 → IsId n id → Reads (read_id (negsuc 0) n) setint2 id
unfolding read_id
read_id-setint2 n id h (i, e, k) rest =
    let inside : InRange (2 ^ 15) (pos i) = omega arith in
    rw (e, getint-setint 2 (2 ^ 15) (pos i) rest refl inside, is_bad_id-pos n i h k)

-- A sort key that the client may send.
abbrev pub IsKey : ℕ → Order → Type 0
IsKey n o = IsId n o.id × InRange (2 ^ 7) o.type

read_order-write_order :
    (n : ℕ) (o : Order) → n < 2 ^ 15 → IsKey n o → Reads read_order write_order o
unfolding read_order
read_order-write_order n o h ((i, e, k), t) rest =
    let inside : InRange (2 ^ 15) (pos i) = omega arith in
    rw
      (
        append_assoc,
        e,
        getint-setint 2 (2 ^ 15) (pos i) (setint1 o.type ++ rest) refl inside,
        getint-setint 1 (2 ^ 7) o.type rest refl t,
      )
      refl

within_self : (buff p : Bytes) → within buff p (length buff) ≡ ok tt
unfolding within
within_self buff p = rw (le→ltb (length buff) (length buff - length p) (omega arith))

getint4-end : (v : ℤ) → InRange (2 ^ 31) v → getint4 (setint4 v) ≡ ok (v, [])
getint4-end v h = ap getint4 (sym (append-nil (setint4 v))) ∙ getint-setint 4 (2 ^ 31) v [] refl h

expand_fields-ids :
    (n : ℕ) (ids : List ℤ) → AllOf (IsId n) ids → ids ≢ [] → expand_fields n ids ≡ ok ids
unfolding expand_fields
expand_fields-ids n [] h k = absurd (k refl)
expand_fields-ids n (id ∷ ids) ((i, e, l), h) k = rw e refl

AllOf-map :
    {A : Type 0} {P Q : A → Type 0} (xs : List A) → ((x : A) → P x → Q x) → AllOf P xs → AllOf Q xs
AllOf-map [] f h = tt
AllOf-map (x ∷ xs) f h = (f x h.0, AllOf-map xs f h.1)

-- A request that the format has room for, over `n` fields.
pub record Fits (n : ℕ) (r : Request) : Type 0 where
  pub known : AllOf (IsId n) r.fields
  pub some_field : r.fields ≢ []
  pub field_count : length r.fields < 2 ^ 15
  pub short : AllOf (λ k. length k < 256 ^ 2) r.keys
  pub key_count : length r.keys < 2 ^ 15
  pub where_size : length r.where_text < 2 ^ 15
  pub sorted_by : AllOf (IsKey n) r.order
  pub order_count : length r.order < 2 ^ 15
  pub offset_range : InRange (2 ^ 31) r.offset
  pub size_range : InRange (2 ^ 31) r.size

whole : (n : ℕ) → (n - 0 == n) ≡ true
whole n = ground arith

drop-header :
    (header rest : Bytes) → length header ≡ header_size → drop header_size (header ++ rest) ≡ rest
drop-header header rest e = subst (λ k. drop k (header ++ rest) ≡ rest) e (drop-length header rest)

-- A request that the format has room for, behind a header and read by the server, is itself, but for
-- the parts that belong to other requests.
pub parse_get_request-write_get :
    (n : ℕ) (r : Request) (header : Bytes)
    → n < 2 ^ 15
    → Fits n r
    → length header ≡ header_size
    → parse_get_request n (header ++ write_get r) (length (header ++ write_get r))
      ≡ ok (record r { aggs = []; group = [] })
unfolding parse_get_request write_get
parse_get_request-write_get n r header b h e =
    let keys_text = write_list setchar2 r.keys in
    let order_text = write_list write_order r.order in
    let long : header_size ≤ length (header ++ write_get r) =
      omega (arith, e, length-append header (write_get r)) in
    let ids_read : AllOf (Reads (read_id (negsuc 0) n) setint2) r.fields =
      AllOf-map r.fields (λ id k. read_id-setint2 n id b k) h.known in
    let keys_read : AllOf (Reads getchar2 setchar2) r.keys =
      AllOf-map r.keys (λ k l rest. getchar-setchar 2 k rest l) h.short in
    let order_read : AllOf (Reads read_order write_order) r.order =
      AllOf-map r.order (λ o k. read_order-write_order n o b k) h.sorted_by in
    let limit_text = setint4 r.offset ++ setint4 r.size in
    rw (
      drop-header header (write_get r) e,
      read_some-write_list (read_id (negsuc 0) n) setint2 r.fields
          (keys_text ++ (setchar2 r.where_text ++ (order_text ++ limit_text))) (ids_read)
          h.field_count h.some_field,
      expand_fields-ids n r.fields h.known h.some_field,
      read_list-write_list getchar2 setchar2 r.keys
          (setchar2 r.where_text ++ (order_text ++ limit_text)) keys_read h.key_count,
      read_string-setchar2 r.where_text (order_text ++ limit_text) h.where_size,
      within_self,
      read_list-write_list read_order write_order r.order limit_text order_read h.order_count,
      within_self,
      getint-setint 4 (2 ^ 31) r.offset (setint4 r.size) refl h.offset_range,
      getint4-end r.size h.size_range,
      whole (length (header ++ write_get r)),
      le→ltb (length (header ++ write_get r)) header_size long,
    )
