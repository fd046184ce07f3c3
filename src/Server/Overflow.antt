-- ===== src/Server/Overflow.antt =====
-- `handle_read_event` of server.cc on a request whose first bytes are fewer than a header.
use stoxdb.Prelude.{
  Bool, zero, suc, ◌+◌, [], ◌∷◌, ap, length-take, ℕ, ◌≤◌, ◌<◌, ◌≡◌, refl, length, take, arith,
  lt→ltb, le→ltb,
}
use stoxdb.Outcome.{ok, ub}
use stoxdb.Base.{Bytes}
use stoxdb.Connection.{Connection, idle, reading_header, buffer_size}
use stoxdb.Server.{
  Stat, Limits, Handlers, ReadAnswer, arrived, go_on, header_size, handle_read_event, take_answer,
  after_read, finish_read, parse_header, receive, start_request,
}
use stoxdb.Server.Received.{nonzero}
use stoxdb.Server.Request.{start_request-idle, zero_add}

-- A client that has sent some bytes: `read` hands out as many of them as it is offered.
abbrev pub peer : Bytes → ℕ → ReadAnswer
peer bytes n = arrived (take n bytes)

take_all : (n : ℕ) (xs : Bytes) → length xs ≤ n → take n xs ≡ xs
take_all zero [] h = refl
take_all zero (x ∷ xs) h = absurd (omega arith)
take_all (suc n) [] h = refl
take_all (suc n) (x ∷ xs) h = ap (◌∷◌ x) (take_all n xs (omega arith))

-- The connection behind the first bytes of a request.
abbrev waiting : ℕ → Bytes → Connection → Connection
waiting now first conn = record conn {
  state = reading_header;
  recv = record (conn.recv) { contents = first; offset = length first; size = 0 };
  last_active = now;
  total_bytes_recv = conn.total_bytes_recv + length first;
}

module _ (l : Limits) (h : Handlers) (count : ℕ) (alloc : Bool) (now : ℕ) (s : Stat)
    (conn : Connection) where
  read_first :
      (first : Bytes)
      → conn.state ≡ idle
      → conn.recv.capacity ≡ buffer_size
      → 0 < length first
      → length first < header_size
      → handle_read_event l h count alloc now (peer first) s conn
        ≡ ok (go_on, record s { request = s.request + 1 }, waiting now first conn)
  unfolding handle_read_event take_answer after_read finish_read parse_header receive
  read_first first e c z k = rw (
    take_all buffer_size first (omega arith),
    nonzero (length first) z,
    start_request-idle conn e,
    zero_add (length first),
    le→ltb conn.recv.capacity (length first) (omega (arith, c)),
    lt→ltb (length first) header_size k,
  )

  read_again :
      (first rest : Bytes) (s' : Stat)
      → conn.recv.capacity ≡ buffer_size
      → 0 < length first
      → buffer_size ≤ length rest
      → handle_read_event l h count alloc now (peer rest) s' (waiting now first conn) ≡ ub
  unfolding handle_read_event take_answer receive start_request
  read_again first rest s' c z f =
      let full : length (take buffer_size rest) ≡ buffer_size =
        omega (arith, length-take buffer_size rest) in
      rw (
        nonzero (length (take buffer_size rest)) (omega (arith, full)),
        lt→ltb conn.recv.capacity (length first + length (take buffer_size rest))
            (omega (arith, full, c)),
      )

-- A connection as it was accepted gets at least one byte and fewer than a header has, and then, before
-- the next read, a full `BUFFER_SIZE` or more. The first read leaves it waiting for the header, and the
-- second one writes past the end of the receive buffer, since it is offered `BUFFER_SIZE` bytes again.
pub handle_read_event-overflow :
    (l : Limits) (h : Handlers) (count : ℕ) (alloc : Bool) (now : ℕ) (first rest : Bytes) (s : Stat)
    (conn : Connection)
    → conn.state ≡ idle
    → conn.recv.capacity ≡ buffer_size
    → 0 < length first
    → length first < header_size
    → buffer_size ≤ length rest
    → (s' : Stat) × (c' : Connection) × (handle_read_event l h count alloc now (peer first) s conn
        ≡ ok (go_on, s', c'))
      × (handle_read_event l h count alloc now (peer rest) s' c' ≡ ub)
handle_read_event-overflow l h count alloc now first rest s conn e c z k f = (
  record s { request = s.request + 1 },
  waiting now first conn,
  read_first l h count alloc now s conn first e c z k,
  read_again l h count alloc now s conn first rest _ c z f,
)
