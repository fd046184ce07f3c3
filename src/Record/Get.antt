-- ===== src/Record/Get.antt =====
-- record.cc: `opt_get`. `std::sort` and the texts of the messages are arguments, and so is what `realloc`
-- answers. A parse that is refused has `protocal_error`; an exception is passed on to `process_data`.
use stoxdb.Prelude.{
  ℕ, ◌+◌, List, [], ◌∷◌, ◌++◌, Bool, true, ltb, if◌then◌else◌, length, take, drop, none, some,
}
use stoxdb.Prelude.Int.{ℤ, pos, negsuc}
use stoxdb.Outcome.{Outcome, ok, err, ub, hang, ◌>>=◌, Message}
use stoxdb.Double.{Double}
use stoxdb.Base.{Bytes}
use stoxdb.Base.Bytes.{read_bytes, setint4}
use stoxdb.Buffer.{Buffer, expand_buffer}
use stoxdb.Meta.{Field, Meta}
use stoxdb.Server.{Buffers}
use stoxdb.Record.Where.{compute_logical, eq_ℤ}
use stoxdb.Record.Store.{Data, find_record, value_size}
use stoxdb.Record.Request.{Request, Order, parse_get_request}
use stoxdb.Record.Order.{field_of, compare}
use stoxdb.Record.Link.{load_and_check_logical}
use stoxdb.Record.Reply.{return_error}

-- The records that are named, or all.
unfoldable pub lookup_all : List Bytes → Data → List Bytes
lookup_all [] m = []
lookup_all (k ∷ ks) m =
    let rest = lookup_all ks m in elim (find_record k m) [ none ↦ rest | some v ↦ v ∷ rest ]

unfoldable pub all_values : Data → List Bytes
all_values [] = []
all_values ((k, v) ∷ m) = v ∷ all_values m

unfoldable pub select : List Bytes → Data → List Bytes
select [] m = all_values m
select (k ∷ ks) m = lookup_all (k ∷ ks) m

-- The loop that moves the records that pass a test to the front, in their order.
unfoldable pub keep_if : (Bytes → Outcome Bool) → List Bytes → Outcome (List Bytes)
keep_if test [] = ok []
keep_if test (v ∷ vs) =
    test v >>= λ b. keep_if test vs >>= λ rest. ok (if b then v ∷ rest else rest)

-- `for (int i = 0; i < size && i + offset < count; i++)`: a negative offset is a huge number there.
unfoldable pub limit_rows : ℤ → ℤ → List Bytes → List Bytes
limit_rows (negsuc o) size rows = []
limit_rows (pos o) (negsuc n) rows = []
limit_rows (pos o) (pos n) rows = take n (drop o rows)

-- -1 stands for all.
abbrev pub row_count : ℤ → List Bytes → ℤ
row_count size rows = if eq_ℤ size (negsuc 0) then pos (length rows) else size

-- `std::sort` over a comparison.
abbrev pub Sort : Type 0
Sort = (Bytes → Bytes → Outcome Bool) → List Bytes → Outcome (List Bytes)

-- What an operation does with an error: a message is answered, an exception is passed on.
abbrev pub answer_error : (Message → Bytes) → Buffers → Message → Outcome (Bool × Buffers)
answer_error text b Message.length_error = err Message.length_error
answer_error text b m = return_error (text m) b.1 >>= λ send. ok (true, (b.0, send))

abbrev pub or_error :
    {A R : Type 0} → (Message → Outcome R) → Outcome A → (A → Outcome R) → Outcome R
or_error fail (ok a) k = k a
or_error fail (err e) k = fail e
or_error fail ub k = ub
or_error fail hang k = hang

module _ {F : Type 0} (fields : List (Field F)) where
  -- The bytes of a field in an answer: of a string its length and what is used of it.
  unfoldable pub read_field : Bytes → ℤ → Outcome Bytes
  read_field value id = field_of fields id >>= λ f.
      value_size f (drop f.offset value) >>= λ n. read_bytes n (drop f.offset value) >>= λ r. ok r.0

  unfoldable pub read_fields : Bytes → List ℤ → Outcome Bytes
  read_fields value [] = ok []
  read_fields value (id ∷ ids) =
      read_field value id >>= λ bs. read_fields value ids >>= λ rest. ok (bs ++ rest)

  -- A row: its size, and the fields.
  unfoldable pub write_rows : List ℤ → List Bytes → Outcome Bytes
  write_rows ids [] = ok []
  write_rows ids (v ∷ vs) = read_fields v ids >>= λ row.
      write_rows ids vs >>= λ rest. ok (setint4 (pos (length row)) ++ (row ++ rest))

  -- `datasize`: the sizes of the fields, without those in front of the rows.
  unfoldable pub row_size : List ℤ → Outcome ℕ
  row_size [] = ok 0
  row_size (id ∷ ids) = field_of fields id >>= λ f. row_size ids >>= λ n. ok (f.size + n)

  unfoldable pub data_size : List ℤ → List Bytes → Outcome ℕ
  data_size ids [] = ok 0
  data_size ids (v ∷ vs) = row_size ids >>= λ n. data_size ids vs >>= λ rest. ok (n + rest)

-- The answer: four bytes more than were stored are sent.
unfoldable pub store_rows : ℕ → Bytes → Buffer → Outcome Buffer
store_rows count rows send =
    let total = 12 + length rows + 4 in
    let bs =
      setint4 (pos (12 + length rows)) ++ (setint4 (pos 0) ++ (setint4 (pos count) ++ rows)) in
    if ltb send.capacity (length bs) then ub else ok (record send { contents = bs; size = total })

module _ (D : Double) (meta : Meta D.F) where
  -- The records that satisfy the condition; an empty one is satisfied.
  unfoldable pub filter_rows : Bytes → List Bytes → Outcome (List Bytes)
  filter_rows [] rows = ok rows
  filter_rows (c ∷ text) rows = load_and_check_logical D meta (c ∷ text) >>= λ lg.
      keep_if (λ v. compute_logical D meta.fields v lg) rows

module _ (D : Double) (meta : Meta D.F) (sort : Sort) where
  unfoldable pub order_rows : List Order → List Bytes → Outcome (List Bytes)
  order_rows [] rows = ok rows
  order_rows (o ∷ os) rows = sort (compare D meta.fields (o ∷ os)) rows

  -- The rows of the answer.
  unfoldable pub get_rows : Request → Data → Outcome (List Bytes)
  get_rows r m = filter_rows D meta r.where_text (select r.keys m) >>= λ kept.
      order_rows r.order kept >>= λ sorted.
      ok (limit_rows r.offset (row_count r.size sorted) sorted)

  unfoldable pub answer_rows :
      Bool → (Message → Bytes) → Request → List Bytes → Buffers → Outcome (Bool × Buffers)
  answer_rows alloc text r rows b = data_size meta.fields r.fields rows >>= λ n.
      expand_buffer alloc b.1 (pos n) >>= λ e.
      if e.0
      then (write_rows meta.fields r.fields rows >>= λ bs.
          store_rows (length rows) bs e.1 >>= λ send. ok (true, (b.0, send)))
      else answer_error text (b.0, e.1) Message.memory_error

  unfoldable pub opt_get : Bool → (Message → Bytes) → Data → Buffers → Outcome (Bool × Buffers)
  opt_get alloc text m b =
      let fail = answer_error text b in
      or_error fail (parse_get_request (length meta.fields) (b.0).contents (b.0).size)
        λ r. or_error fail (get_rows r m) λ rows. answer_rows alloc text r rows b
