-- ===== src/Record/Reply.antt =====
-- record.cc: the bytes of the answers (`set_header`, `return_error`), and the operations that only read:
-- `opt_test`, `opt_conf`, `opt_column` and `opt_detail`. An answer is stored from the start of the send
-- buffer on; one that is longer than the space is undefined behaviour.
pub mod Columns
use stoxdb.Prelude.{
  ℕ, ◌+◌, ◌-◌, ◌*◌, List, [], ◌∷◌, ◌++◌, Bool, true, false, ltb, leb, if◌then◌else◌, length, take,
}
use stoxdb.Prelude.Int.{ℤ, pos, negsuc, ◌-ℤ◌}
use stoxdb.Outcome.{Outcome, ok, ub, ◌>>=◌}
use stoxdb.Base.{Bytes}
use stoxdb.Base.Bytes.{setint1, setint2, setint4, setchar1, setchar2}
use stoxdb.Buffer.{Buffer, expand_buffer}
use stoxdb.Expression.{Kind, kchar, is_kind, ordinal}
use stoxdb.Meta.{Field, Meta}
use stoxdb.Server.{Buffers}
use stoxdb.Record.Store.{Data}

-- `OK` and `ERROR`.
abbrev pub status_ok : ℤ
status_ok = pos 0

abbrev pub status_error : ℤ
status_error = pos 1

-- `set_header`, for a body that stands behind it.
unfoldable pub set_header : ℤ → Bytes → Bytes
set_header status body = setint4 (pos (4 + length body)) ++ (setint4 status ++ body)

-- The bytes of an answer, in the send buffer.
unfoldable pub store_reply : Bytes → Buffer → Outcome Buffer
store_reply bs send =
    if ltb send.capacity (length bs)
    then ub
    else ok (record send { contents = bs; size = length bs })

unfoldable pub reply : ℤ → Bytes → Buffer → Outcome Buffer
reply status body send = store_reply (set_header status body) send

-- `return_error`.
unfoldable pub return_error : Bytes → Buffer → Outcome Buffer
return_error msg send = reply status_error (setchar2 msg) send

-- `opt_test`: what was received.
unfoldable pub opt_test : Bool → Buffers → Outcome (Bool × Buffers)
opt_test alloc b =
    let (recv, send) = b in
    expand_buffer alloc send (pos recv.capacity -ℤ pos send.capacity) >>= λ e.
    if e.0
    then (if ltb e.1.capacity recv.size
        then ub
        else ok (
          true,
          (
            recv,
            record (e.1) { contents = take recv.size recv.contents; offset = 0; size = recv.size },
          ),
        ))
    else ok (false, (recv, e.1))

-- `opt_column`, with the bytes of `field_buffer_`. They are stored at the place that the buffer had
-- before it was expanded: where the space moves that is undefined behaviour.
unfoldable pub opt_column : Bool → Bytes → Buffers → Outcome (Bool × Buffers)
opt_column alloc columns b = expand_buffer alloc b.1 (pos (length columns)) >>= λ e.
    if e.0
    then (if ltb b.1.capacity e.1.capacity
        then ub
        else (reply status_ok columns e.1 >>= λ send. ok (true, (b.0, send))))
    else ok (false, (b.0, e.1))

module _ {F : Type 0} where
  -- `opt_conf`.
  unfoldable pub opt_conf : Meta F → Data → Buffers → Outcome (Bool × Buffers)
  opt_conf meta m b =
      let body =
        setint4 (pos meta.port)
        ++ (setchar1 meta.dump_file
            ++ (setint4 (pos meta.magic_number)
                ++ (setint4 (pos meta.max_recv_size)
                    ++ (setint4 (pos meta.max_connections)
                        ++ (setint4 (pos meta.record_size)
                            ++ (setint4 (pos (length meta.fields))
                                ++ setint4 (pos (length m)))))))) in
      reply status_ok body b.1 >>= λ send. ok (true, (b.0, send))

  -- The size that a client is told: of a string without its length in front.
  unfoldable pub column_size : Field F → ℤ
  column_size f = if is_kind f.type kchar then pos f.size -ℤ pos 2 else pos f.size

  unfoldable pub field_column : Field F → Bytes
  field_column f = setint1 (pos (ordinal f.type)) ++ (setint2 (column_size f) ++ setchar1 f.name)

  unfoldable pub field_columns : List (Field F) → Bytes
  field_columns [] = []
  field_columns (f ∷ fs) = field_column f ++ field_columns fs

  -- `put_field_to_buffer`: the columns, in a space of 36 bytes for each field.
  unfoldable pub put_field_to_buffer : Meta F → Outcome Bytes
  put_field_to_buffer meta =
      let bs = field_columns meta.fields in
      if ltb ((4 + 32) * length meta.fields) (length bs) then ub else ok bs

  unfoldable pub field_detail : Field F → Bytes
  field_detail f = setchar1 f.name ++ (setchar1 f.rtype ++ (setchar2 f.note ++ setchar2 f.rform))

  -- The loop of `opt_detail`. `p` points into the space that was there first: where the space moves the
  -- next write is undefined behaviour. `offset` stays where it is, so that the space is asked for one
  -- field only.
  unfoldable pub detail_loop :
      Bool → Bytes → List (Field F) → Buffer → Outcome (Bool × Bytes × Buffer)
  detail_loop alloc written [] send = ok (true, written, send)
  detail_loop alloc written (f ∷ fs) send =
      let sz = length f.name + length f.note + length f.rtype + length f.rform + 6 in
      expand_buffer alloc send (pos sz) >>= λ e.
      if e.0
      then (if ltb send.capacity e.1.capacity
          then ub
          else if ltb send.capacity (8 + length written + length (field_detail f))
          then ub
          else detail_loop alloc (written ++ field_detail f) fs e.1)
      else ok (false, written, e.1)

  unfoldable pub opt_detail : Bool → Meta F → Buffers → Outcome (Bool × Buffers)
  opt_detail alloc meta b = detail_loop alloc [] meta.fields b.1 >>= λ r.
      if r.0
      then (reply status_ok r.1 r.2 >>= λ send. ok (true, (b.0, send)))
      else ok (false, (b.0, r.2))
