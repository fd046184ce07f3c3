-- ===== src/Server/Response.antt =====
-- `handle_write_event` of server.cc: a response to its last byte.
use stoxdb.Prelude.{
  ℕ, ◌+◌, ◌-◌, ◌≤◌, ◌<◌, ◌≡◌, refl, ◌⊎◌, inl, inr, arith, lt→ltb, lt→leb, le→leb, ltb-cases,
}
use stoxdb.Connection.{writing, idle, Connection}
use stoxdb.Server.{Stat, sent, go_on, await_input, write_size, finish_write, handle_write_event}

write_size-le : (conn : Connection) → write_size conn ≤ conn.send.size - conn.send.offset
unfolding write_size
write_size-le conn = ground arith

abbrev after_send : ℕ → ℕ → Connection → Connection
after_send now n conn = record conn {
  send = record (conn.send) { offset = conn.send.offset + n };
  last_active = now;
  total_bytes_sent = conn.total_bytes_sent + n;
}

-- In a connection whose response is being sent, a `write` that sends no more than it is offered either
-- leaves bytes to send and the connection in its state, or sends the last ones: then the response is
-- counted once with its size, and the connection is idle and waits for input. The offset advances by
-- what was sent and never passes the size.
pub handle_write_event-progress :
    (now n : ℕ) (s : Stat) (conn : Connection)
    → conn.state ≡ writing
    → conn.send.offset < conn.send.size
    → 0 < n
    → n ≤ write_size conn
    → (c : Connection) × (c.send.offset ≡ conn.send.offset + n)
      × (c.send.offset ≤ c.send.size)
      × (c.send.size ≡ conn.send.size)
      × (((c.send.offset < c.send.size)
            × (c.state ≡ writing)
            × (handle_write_event now (λ _. sent n) s conn ≡ (go_on, s, c)))
          ⊎ ((c.send.offset ≡ c.send.size)
              × (c.state ≡ idle)
              × (handle_write_event now (λ _. sent n) s conn ≡ (
                await_input,
                record s { send_bytes = s.send_bytes + conn.send.size; response = s.response + 1 },
                c,
              ))))
unfolding handle_write_event write_size finish_write
handle_write_event-progress now n s conn w l p h =
    elim (ltb-cases (conn.send.offset + n) conn.send.size) [
      | inl k ↦ (
        after_send now n conn,
        refl,
        omega arith,
        refl,
        inl (k, w, rw (w, lt→ltb 0 n p, lt→leb (conn.send.offset + n) conn.send.size k) refl),
      )
      | inr k ↦
          let z : conn.send.offset + n ≡ conn.send.size =
            omega (arith, k, h, l, write_size-le conn) in
          (
            record (after_send now n conn) { state = idle },
            refl,
            omega arith,
            refl,
            inr (
              z,
              refl,
              rw (w, lt→ltb 0 n p, le→leb conn.send.size (conn.send.offset + n) k) refl,
            ),
          )
    ]
