-- ===== src/Record/Set.antt =====
-- record.cc: `opt_set`, the loop over the records of a request. A pointer into the receive buffer is an
-- index; one in front of the buffer is undefined behaviour.
pub mod Items
pub mod Apart
pub mod Loop
pub mod Sized
pub mod Lengths
pub mod Frames
pub mod Endless
use stoxdb.Prelude.{
  ℕ, zero, suc, ◌+◌, ◌-◌, ◌^◌, List, [], ◌∷◌, ◌++◌, Bool, true, false, ltb, if◌then◌else◌, length,
  drop,
}
use stoxdb.Prelude.Int.{ℤ, pos, negsuc, ltb_ℤ, ◌+ℤ◌, ◌-ℤ◌}
use stoxdb.Outcome.{Outcome, ok, ub, hang, ◌>>=◌}
use stoxdb.Double.{Double}
use stoxdb.Base.{Bytes}
use stoxdb.Base.Bytes.{getint4, getchar2, setint4}
use stoxdb.Meta.{Meta}
use stoxdb.Buffer.{Buffer}
use stoxdb.Server.{header_size, Buffers}
use stoxdb.Record.Store.{Data, setone}
use stoxdb.Record.Reply.{status_ok, reply}

-- `p += size` for an index; in front of the buffer it is undefined.
abbrev pub move : ℕ → ℤ → Outcome ℕ
move p size = elim (pos p +ℤ size) [ pos q ↦ ok q | negsuc q ↦ ub ]

-- The index behind what was read, from the rest of the buffer.
abbrev pub index_of : Bytes → Bytes → ℕ
index_of buff rest = length buff - length rest

-- `setone(...) && ok++`.
abbrev pub count_one : Bool → ℕ → ℕ
count_one b n = if b then suc n else n

-- `p - start < header->size`.
unfoldable pub is_more : ℕ → ℤ → Bool
is_more p limit = ltb_ℤ (pos p -ℤ pos header_size) limit

-- Where the next record starts, the map, and the number of the updates that were made.
pub record Round : Type 0 where
  pub at : ℕ
  pub records : Data
  pub made : ℕ

module _ (D : Double) (meta : Meta D.F) (levels : ℕ) where
  -- One record: the update, and the step behind it, with the announced length and what was read.
  unfoldable pub update_record : Bytes → Round → ℤ → Bytes × Bytes → Outcome Round
  update_record buff s total key =
      let size = total -ℤ pos 2 -ℤ pos (length key.0) in
      setone D meta levels s.records key.0 key.1 size >>= λ r.
      move (index_of buff key.1) size >>= λ q.
      ok (record { at = q; records = r.1; made = count_one r.0 s.made })

  unfoldable pub set_record : Bytes → Round → Outcome Round
  set_record buff s =
      getint4 (drop s.at buff) >>= λ a. getchar2 a.1 >>= λ key. update_record buff s a.0 key

  -- The loop over the records of the request, on fuel.
  unfoldable pub set_records : ℕ → Bytes → ℤ → Round → Outcome Round
  set_records zero buff limit s = elim (is_more s.at limit) [ false ↦ ok s | true ↦ hang ]
  set_records (suc n) buff limit s = elim (is_more s.at limit) [
    | false ↦ ok s
    | true ↦ set_record buff s >>= λ t. set_records n buff limit t
  ]

  -- `opt_set`: the number of the updates that were made, and the map.
  unfoldable pub opt_set : ℕ → Data → Buffers → Outcome (Bool × Buffers × Data)
  opt_set fuel m b = getint4 (drop 4 (b.0).contents) >>= λ size.
      set_records fuel (b.0).contents size.0 (record { at = header_size; records = m; made = 0 })
      >>= λ r.
          reply status_ok (setint4 (pos r.made)) b.1 >>= λ send. ok (true, (b.0, send), r.records)
