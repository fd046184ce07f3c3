-- ===== src/Tests/Stores.antt =====
-- The table of one string field: a record that is set, dumped and compared, and requests that go wrong.
use stoxdb.Prelude.{
  ℕ, ◌≢◌, get_elem?, take, some, ◌+◌, ◌≤◌, [], ◌∷◌, ◌++◌, true, ◌≡◌, refl, none, length, replicate,
  arith,
}
use stoxdb.Prelude.Int.{ℤ, pos, negsuc, ◌-ℤ◌, ◌+ℤ◌}
use stoxdb.Outcome.{ok, ub, hang, ◌>>=◌}
use stoxdb.Base.{Bytes}
use stoxdb.Base.Bytes.{setint2, setchar2, setint4, setchar, setint, getint, of_word}
use stoxdb.Buffer.{Buffer}
use stoxdb.Expression.{is_kind}
use stoxdb.Meta.{Field, Meta, layout, set_offsets, total_size}
use stoxdb.Server.{header_size}
use stoxdb.Record.Where.{bytes_lt}
use stoxdb.Record.Store.{Progress, set_field, Data, value_size, find_record}
use stoxdb.Record.Reply.{status_ok, reply}
use stoxdb.Record.Order.{compare_texts}
use stoxdb.Record.Order.Texts.{with_text, compare_texts-bytes_lt}
use stoxdb.Record.Dump.{dump_loop, load}
use stoxdb.Record.Dump.Roundtrip.{record_bytes, load-dump, load-overflow}
use stoxdb.Record.Set.{is_more, set_records, opt_set}
use stoxdb.Record.Set.Items.{setting_bytes, frame}
use stoxdb.Record.Set.Apart.{place, set_field-place}
use stoxdb.Record.Set.Frames.{Entry, frames, AreEntries, store_entries}
use stoxdb.Record.Set.Endless.{set_records-endless}
use stoxdb.Client.Update.{Draft, begin, finish}
use stoxdb.Client.Update.Session.{send_all, opt_set-finish}
use stoxdb.Tests.{int_double}
use stoxdb.Tests.Requests.{table, asker, text_column, number_column, columns}

abbrev key : Bytes
key = b'k' ∷ []

abbrev entry : Entry
entry = (key, (0, 1 ∷ 0 ∷ b'x' ∷ []) ∷ [])

entry-AreEntries : AreEntries int_double table 1 (entry ∷ [])
unfolding setting_bytes setint value_size is_kind getint of_word ◌+ℤ◌
entry-AreEntries = (
  omega arith,
  omega arith,
  ((text_column, refl, omega arith, λ rest. refl, omega arith), tt),
  tt,
)

entry_small : header_size + length (frames (entry ∷ [])) ≤ 8192
unfolding frames frame setting_bytes setint setchar
entry_small = omega arith

abbrev empty_draft : Draft
empty_draft = record { capacity = 8192; body = []; begin = none }

abbrev room : Buffer
room = record { contents = []; capacity = 8192; offset = 0; size = 0 }

opt_set-finish_example :
    (e : Draft) × (send_all (entry ∷ []) (begin empty_draft) ≡ ok e)
    × (opt_set int_double table 1 1 [] (record room { contents = finish asker e }, room) ≡ (
        store_entries int_double table 1 (entry ∷ []) [] >>= λ m'.
        reply status_ok (setint4 (pos 1)) room >>= λ s.
        ok (true, (record room { contents = finish asker e }, s), m')))
opt_set-finish_example =
    opt_set-finish int_double table 1 asker (entry ∷ []) [] empty_draft room room entry-AreEntries
      tt entry_small (omega arith)

abbrev stored : Data
stored = (key, 1 ∷ 0 ∷ b'x' ∷ 0 ∷ 0 ∷ []) ∷ []

no_key : find_record key [] ≡ none
unfolding find_record
no_key = refl

load-dump_example : (file : Bytes) × (dump_loop 5 stored ≡ ok file) × (load 5 1 [] file ≡ ok stored)
load-dump_example = load-dump 5 stored (omega arith) (refl, tt) (omega arith, tt) (no_key, tt)

load-overflow_example : load 5 1 [] (record_bytes (replicate 33 b'k') (0 ∷ []) ++ []) ≡ ub
load-overflow_example =
    load-overflow 5 0 [] (replicate 33 b'k') (0 ∷ []) [] (omega arith) (omega arith)

-- A table with a string and a number of two bytes, and a record of it.
abbrev wide : Meta ℤ
wide = record table { fields = columns }

abbrev wide_value : Bytes
wide_value = 1 ∷ 0 ∷ b'x' ∷ 0 ∷ 0 ∷ 7 ∷ 7 ∷ []

number_there : get_elem? (layout wide).fields 1 ≡ some number_column
unfolding layout set_offsets
number_there = refl

wide_size : length wide_value ≡ (layout wide).record_size
unfolding layout total_size
wide_size = refl

number_size : value_size number_column ((44 ∷ 1 ∷ []) ++ 9 ∷ []) ≡ ok 2
unfolding value_size is_kind
number_size = refl

set_field-place_example :
    (t : Progress) × (set_field (layout wide).fields (record {
      rest = setint2 (pos 1) ++ ((44 ∷ 1 ∷ []) ++ 9 ∷ []);
      value = wide_value;
      decide = [];
    })
      ≡ ok (some t))
    × (t.rest ≡ 9 ∷ [])
    × (take 2 (place number_column t.value) ≡ 44 ∷ 1 ∷ [])
    × ((j : ℕ) (g : Field ℤ)
        → j ≢ 1
        → get_elem? (layout wide).fields j ≡ some g
        → place g t.value ≡ place g wide_value)
    × (length t.value ≡ length wide_value)
set_field-place_example =
    set_field-place wide 1 number_column (44 ∷ 1 ∷ []) (9 ∷ []) wide_value [] number_there
      (omega arith) wide_size number_size (omega arith)

compare_texts-bytes_lt_example :
    compare_texts 0 (pos 1) (with_text [] (b'a' ∷ []) []) (with_text [] (b'b' ∷ []) [])
    ≡ ok (bytes_lt (b'a' ∷ []) (b'b' ∷ []))
compare_texts-bytes_lt_example =
    compare_texts-bytes_lt [] [] [] [] (b'a' ∷ []) (b'b' ∷ []) (omega arith) (omega arith) refl

more : is_more 12 (pos 100) ≡ true
unfolding is_more ◌-ℤ◌
more = refl

set_records-endless_example :
    set_records int_double table 1 1000
      (replicate 12 0 ++ (setint4 (negsuc 3) ++ (setchar2 (replicate 65 b'k') ++ [])))
      (pos 100)
      (record { at = 12; records = []; made = 0 })
    ≡ hang
set_records-endless_example =
    set_records-endless int_double table 1 1000 (replicate 12 0) [] (replicate 65 b'k') (pos 100) []
      0 (omega arith) (omega arith) more
