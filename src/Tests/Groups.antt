-- ===== src/Tests/Groups.antt =====
-- Three records of one string field, two of them alike, counted in groups.
use stoxdb.Prelude.{ℕ, List, [], ◌∷◌, ◌≡◌, refl}
use stoxdb.Prelude.Int.{ℤ, pos, negsuc, ◌+ℤ◌}
use stoxdb.Outcome.{ok, ◌>>=◌, Ensures}
use stoxdb.Base.{Bytes, same}
use stoxdb.Base.Bytes.{of_word, getint, read_bytes}
use stoxdb.Expression.{kchar, is_kind}
use stoxdb.Record.{read_number}
use stoxdb.Record.Where.{bytes_lt}
use stoxdb.Record.Store.{Data}
use stoxdb.Record.Request.{Request}
use stoxdb.Record.Get.{all_values, filter_rows}
use stoxdb.Record.Aggregate.{Groups, make_groups}
use stoxdb.Record.Aggregate.Values.{
  AggItem, start_items, update_item, update_items, accumulate, text_operand, group_bytes, take_text,
  make_key_by_group,
}
use stoxdb.Record.Aggregate.Table.{group_rows, ensure_group, update_group, find_group, insert_group}
use stoxdb.Record.Aggregate.Meaning.{rows_of, update_rows, group_of, make_groups-rows_of}
use stoxdb.Record.Aggregate.Smallest.{NoTexts, make_groups-NoTexts}
use stoxdb.Tests.{int_double}
use stoxdb.Tests.Requests.{table}

abbrev row_x : Bytes
row_x = 1 ∷ 0 ∷ b'x' ∷ 0 ∷ 0 ∷ []

abbrev row_y : Bytes
row_y = 1 ∷ 0 ∷ b'y' ∷ 0 ∷ 0 ∷ []

abbrev rows : List Bytes
rows = row_x ∷ row_y ∷ row_x ∷ []

abbrev people : Data
people = (b'a' ∷ [], row_x) ∷ (b'b' ∷ [], row_y) ∷ (b'c' ∷ [], row_x) ∷ []

-- The number and the smallest of the strings, for each string.
abbrev counting : Request
counting = record {
  fields = [];
  keys = [];
  where_text = [];
  order = [];
  aggs = record { aid = pos 1; fid = pos 0 } ∷ record { aid = pos 5; fid = pos 0 } ∷ [];
  group = pos 0 ∷ [];
  offset = pos 0;
  size = negsuc 0;
}

abbrev item : ℤ → ℕ → AggItem ℤ
item aid count = record {
  aid = aid;
  fid = pos 0;
  ftype = kchar;
  bytes = pos 8;
  count = count;
  sum = pos 0;
  max_d = pos 0;
  min_d = pos 0;
  max_s = [];
  min_s = [];
}

abbrev smallest : ℕ → AggItem ℤ
smallest count = record (item (pos 5) count) { bytes = pos 2 }

abbrev counted : Groups ℤ
counted =
    (1 ∷ 0 ∷ b'x' ∷ [], item (pos 1) 2 ∷ smallest 2 ∷ [])
    ∷ (1 ∷ 0 ∷ b'y' ∷ [], item (pos 1) 1 ∷ smallest 1 ∷ [])
    ∷ []

all_rows : filter_rows int_double table [] (all_values people) ≡ ok rows
unfolding filter_rows all_values
all_rows = refl

fresh_items :
    start_items int_double table.fields counting.aggs ≡ ok (item (pos 1) 0 ∷ item (pos 5) 0 ∷ [])
unfolding start_items
fresh_items = refl

groups_made : make_groups int_double table counting people ≡ ok counted
unfolding make_groups filter_rows all_values start_items group_rows make_key_by_group group_bytes
    is_kind getint take_text ◌+ℤ◌ update_group ensure_group find_group insert_group same
    update_items update_item read_number text_operand accumulate bytes_lt of_word read_bytes
groups_made = refl

make_groups-rows_of_example :
    (rows_of (make_key_by_group table.fields counting.group) (1 ∷ 0 ∷ b'x' ∷ []) rows
      >>= update_rows (update_items int_double table.fields) (item (pos 1) 0 ∷ item (pos 5) 0 ∷ []))
    ≡ ok (group_of (item (pos 1) 0 ∷ item (pos 5) 0 ∷ []) (1 ∷ 0 ∷ b'x' ∷ []) counted)
make_groups-rows_of_example =
    make_groups-rows_of int_double table counting people (1 ∷ 0 ∷ b'x' ∷ []) all_rows fresh_items
      groups_made

make_groups-NoTexts_example : Ensures NoTexts (make_groups int_double table counting people)
make_groups-NoTexts_example = make_groups-NoTexts int_double table counting people
