-- ===== src/Record/Aggregate.antt =====
-- record.cc: `opt_agg`: the groups of the records that satisfy the condition, and the answer.
pub mod Values
pub mod Table
pub mod Meaning
pub mod Keys
pub mod Smallest
use stoxdb.Prelude.{
  ℕ, suc, ◌+◌, ◌^◌, ◌%◌, List, [], ◌∷◌, ◌++◌, Bool, true, if◌then◌else◌, length, drop, Option, none,
  some,
}
use stoxdb.Prelude.Int.{ℤ, pos, negsuc, ◌+ℤ◌}
use stoxdb.Outcome.{Outcome, ok, err, ub, ◌>>=◌, Message}
use stoxdb.Double.{Double}
use stoxdb.Base.{Bytes, same}
use stoxdb.Base.Bytes.{read_bytes, setint4, setchar2, of_word}
use stoxdb.Buffer.{expand_buffer}
use stoxdb.Expression.{Kind, kchar, is_kind}
use stoxdb.Meta.{Field, Meta}
use stoxdb.Server.{Buffers}
use stoxdb.Record.{read_int, read_number}
use stoxdb.Record.Where.{bytes_lt, eq_ℤ}
use stoxdb.Record.Store.{Data}
use stoxdb.Record.Request.{Agg, Request, parse_agg_request}
use stoxdb.Record.Order.{field_of}
use stoxdb.Record.Get.{all_values, filter_rows, store_rows, answer_error, or_error}
use stoxdb.Record.Aggregate.Values.{AggItem, AggList, start_items, update_items, make_key_by_group}
use stoxdb.Record.Aggregate.Table.{group_rows}

-- `map<string, AggList>`.
abbrev pub Groups : Type 0 → Type 0
Groups F = List (Bytes × AggList F)

module _ (D : Double) where
  open D use {F, of_int, div, to_double_bytes}

  abbrev pub sum_sizes : AggList F → ℤ
  sum_sizes [] = pos 0
  sum_sizes (v ∷ vs) = v.bytes +ℤ sum_sizes vs

  -- The space that is asked for.
  unfoldable pub groups_size : Groups F → ℤ
  groups_size [] = pos 0
  groups_size ((key, items) ∷ g) = pos (length key) +ℤ (sum_sizes items +ℤ groups_size g)

  -- The bytes of an item; a number 1 is an integer, and an unknown function writes nothing.
  unfoldable pub item_bytes : AggItem F → Bytes
  item_bytes v =
      if eq_ℤ v.aid (pos 1)
      then setint4 (pos v.count)
      else if eq_ℤ v.aid (pos 2)
      then to_double_bytes v.sum
      else if eq_ℤ v.aid (pos 3)
      then to_double_bytes (div v.sum (of_int (pos v.count)))
      else if eq_ℤ v.aid (pos 4)
      then (if is_kind v.ftype kchar then setchar2 v.max_s else to_double_bytes v.max_d)
      else if eq_ℤ v.aid (pos 5)
      then (if is_kind v.ftype kchar then setchar2 v.min_s else to_double_bytes v.min_d)
      else []

  unfoldable pub items_bytes : AggList F → Bytes
  items_bytes [] = []
  items_bytes (v ∷ vs) = item_bytes v ++ items_bytes vs

  -- A row for each group: its size, the key and the values.
  unfoldable pub write_groups : Groups F → Bytes
  write_groups [] = []
  write_groups ((key, items) ∷ g) =
      let row = key ++ items_bytes items in setint4 (pos (length row)) ++ (row ++ write_groups g)

module _ (D : Double) (meta : Meta D.F) where
  open D use {F}

  unfoldable pub make_groups : Request → Data → Outcome (Groups F)
  make_groups r m = filter_rows D meta r.where_text (all_values m) >>= λ rows.
      start_items D meta.fields r.aggs >>= λ start.
      group_rows (make_key_by_group meta.fields r.group) (update_items D meta.fields) start rows []

  unfoldable pub answer_groups :
      Bool → (Message → Bytes) → Groups F → Buffers → Outcome (Bool × Buffers)
  answer_groups alloc text g b = expand_buffer alloc b.1 (groups_size D g) >>= λ e.
      if e.0
      then (store_rows (length g) (write_groups D g) e.1 >>= λ send. ok (true, (b.0, send)))
      else answer_error text (b.0, e.1) Message.memory_error

  unfoldable pub opt_agg : Bool → (Message → Bytes) → Data → Buffers → Outcome (Bool × Buffers)
  opt_agg alloc text m b =
      let fail = answer_error text b in
      or_error fail (parse_agg_request (length meta.fields) (b.0).contents (b.0).size)
        λ r. or_error fail (make_groups r m) λ g. answer_groups alloc text g b
