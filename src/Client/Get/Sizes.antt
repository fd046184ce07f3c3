-- ===== src/Client/Get/Sizes.antt =====
-- client.cc: the lists of a request that `Client::get` builds are no longer than its bytes.
use stoxdb.Prelude.{◌%◌, take, ◌^◌, ◌≤◌, List, [], ◌∷◌, ◌++◌, length, arith, length-append}
use stoxdb.Prelude.Int.{pos}
use stoxdb.Base.{Bytes}
use stoxdb.Base.Bytes.{setint1, setint2, setint4, setchar2, setchar, le_bytes}
use stoxdb.Base.Bytes.Roundtrip.{length-le_bytes, length-setint}
use stoxdb.Record.Request.{Order, Request}
use stoxdb.Client.Get.{write_items, write_list, write_order, write_get}

length-write_items :
    {A : Type 0} (w : A → Bytes)
    → ((x : A) → 1 ≤ length (w x))
    → (xs : List A) → length xs ≤ length (write_items w xs)
unfolding write_items
length-write_items w h [] = omega arith
length-write_items w h (x ∷ xs) =
    omega (arith, h x, length-write_items w h xs, length-append (w x) (write_items w xs))

length-setchar2 : (s : Bytes) → 1 ≤ length (setchar2 s)
unfolding setchar
length-setchar2 s = omega (
  arith,
  length-append (le_bytes 2 (length s % 256 ^ 2)) (take (length s % 256 ^ 2) s),
  length-le_bytes 2 (length s % 256 ^ 2),
)

length-write_list :
    {A : Type 0} (w : A → Bytes)
    → ((x : A) → 1 ≤ length (w x))
    → (xs : List A) → length xs ≤ length (write_list w xs)
unfolding write_list
length-write_list w h xs =
    omega (
      arith,
      length-write_items w h xs,
      length-append (setint2 (pos (length xs))) (write_items w xs),
    )

length-write_order : (o : Order) → 1 ≤ length (write_order o)
length-write_order o =
    omega (arith, length-append (setint2 o.id) (setint1 o.type), length-setint 2 o.id)

pub length-write_get :
    (r : Request)
    → (length r.fields ≤ length (write_get r))
      × (length r.keys ≤ length (write_get r))
      × (length r.order ≤ length (write_get r))
unfolding write_get
length-write_get r =
    let fields_text = write_list setint2 r.fields in
    let keys_text = write_list setchar2 r.keys in
    let order_text = write_list write_order r.order in
    let limit_text = setint4 r.offset ++ setint4 r.size in
    let ids : length r.fields ≤ length fields_text =
      length-write_list setint2 (λ v. omega (arith, length-setint 2 v)) r.fields in
    let keys : length r.keys ≤ length keys_text =
      length-write_list setchar2 length-setchar2 r.keys in
    let order : length r.order ≤ length order_text =
      length-write_list write_order length-write_order r.order in
    let t1 = length-append order_text limit_text in
    let t2 = length-append (setchar2 r.where_text) (order_text ++ limit_text) in
    let t3 = length-append keys_text (setchar2 r.where_text ++ (order_text ++ limit_text)) in
    let t4 =
      length-append fields_text
        (keys_text ++ (setchar2 r.where_text ++ (order_text ++ limit_text))) in
    (omega (arith, t4, ids), omega (arith, t4, t3, keys), omega (arith, t4, t3, t2, t1, order))
