-- ===== src/Server/Request.antt =====
-- `handle_read_event` of server.cc: a request from its first byte to the handler.
use stoxdb.Prelude.{
  ℕ, ◌+◌, ◌^◌, ◌≤◌, ◌<◌, Bool, true, ◌≡◌, refl, ap, ◌∙◌, length, arith, le→ltb, le→leb,
  if◌then◌else◌,
}
use stoxdb.Prelude.Int.{pos}
use stoxdb.Outcome.{Outcome, ok, ◌>>=◌}
use stoxdb.Base.{Bytes}
use stoxdb.Base.Bytes.Roundtrip.{InRange}
use stoxdb.Buffer.{Buffer, expand_buffer}
use stoxdb.Connection.{reading_header, reading_body, writing, idle, Connection, buffer_size}
use stoxdb.Server.{
  Stat, Header, Limits, Handlers, ReadAnswer, arrived, take_answer, Verdict, close, await_output,
  header_size, read_header, parse_header, process_data, receive, start_request, handle_read_event,
  after_read, finish_read, difference,
}
use stoxdb.Server.Received.{
  request_bytes, read_header-request_bytes, nonzero, length-request_bytes, Admits,
  check_header-Admits,
}

-- The connection behind a whole request that one read brought.
abbrev pub requested : ℕ → Header → Bytes → Connection → Connection
requested now h body conn = record conn {
  state = reading_body;
  opt = h.opt;
  recv = record (conn.recv) {
    contents = request_bytes h body;
    offset = length (request_bytes h body);
    size = length body + header_size;
  };
  last_active = now;
  request_count = conn.request_count + 1;
  total_bytes_recv = conn.total_bytes_recv + length (request_bytes h body);
}

-- The connection behind the read, before the header is looked at.
abbrev received : ℕ → Header → Bytes → Connection → Connection
received now h body conn = record conn {
  state = reading_header;
  recv = record (conn.recv) {
    contents = request_bytes h body;
    offset = length (request_bytes h body);
    size = 0;
  };
  last_active = now;
  total_bytes_recv = conn.total_bytes_recv + length (request_bytes h body);
}

pub start_request-idle :
    (conn : Connection)
    → conn.state ≡ idle
    → start_request conn
      ≡ record conn { state = reading_header; recv = record (conn.recv) { offset = 0; size = 0 } }
unfolding start_request
start_request-idle conn e = rw (start_request, e)

pub zero_add : (n : ℕ) → 0 + n ≡ n
zero_add n = omega arith

receive-request :
    (now : ℕ) (h : Header) (body : Bytes) (conn : Connection)
    → conn.state ≡ idle
    → length (request_bytes h body) ≤ conn.recv.capacity
    → receive now (request_bytes h body) (start_request conn) ≡ ok (received now h body conn)
unfolding receive
receive-request now h body conn e k =
    rw
      (
        start_request-idle conn e,
        zero_add (length (request_bytes h body)),
        le→ltb conn.recv.capacity (length (request_bytes h body)) k,
      )
      refl

-- The answer of the handler decides.
abbrev pub answered : Stat → Bool × Connection → Outcome (Verdict × Stat × Connection)
answered s r =
    if r.0
    then ok
        (await_output, s, record (r.1) { state = writing; send = record (r.1.send) { offset = 0 } })
    else ok (close, s, r.1)

difference_self : (a b : ℕ) → a ≡ b → difference a b ≡ pos 0
difference_self a b e = ground arith

expand_buffer-difference :
    (alloc : Bool) (bf : Buffer) (a b : ℕ)
    → a ≡ b
    → expand_buffer alloc bf (difference a b) ≡ ok (true, bf)
unfolding expand_buffer
expand_buffer-difference alloc bf a b e = rw (difference_self a b e)

size-InRange : (l : Limits) (h : Header) (size : ℕ) → Admits l h size → InRange (2 ^ 31) h.size
size-InRange l h size (a, b, c, d, e, f) = rw d (omega arith)

parse_header-requested :
    (l : Limits) (alloc : Bool) (conn : Connection) (h : Header) (body : Bytes)
    → Admits l h (length body)
    → conn.recv.contents ≡ request_bytes h body
    → conn.recv.offset ≡ length (request_bytes h body)
    → parse_header l alloc conn
      ≡ ok (
        true,
        record conn {
          state = reading_body;
          opt = h.opt;
          recv = record (conn.recv) { size = length body + header_size };
        },
      )
unfolding parse_header
parse_header-requested l alloc conn h body a e f =
    let z : conn.recv.offset ≡ 12 + length body = f ∙ length-request_bytes h body in
    rw
      (
        le→ltb conn.recv.offset header_size (omega (arith, z)),
        ap read_header e
            ∙ read_header-request_bytes h body (a.0) (size-InRange l h (length body) a) (a.1),
        check_header-Admits l h (length body) a,
        expand_buffer-difference alloc (record (conn.recv) { size = length body + header_size })
            (length body + header_size) conn.recv.offset (omega (arith, z)),
      )
      refl

-- On an idle connection a read that is offered `BUFFER_SIZE` bytes and brings a whole request, its header within the limits and the
-- request within the space, hands the handler of its operation exactly the bytes of the request, and
-- the handler's answer decides between sending the response from its start and closing.
pub handle_read_event-request :
    (l : Limits) (hs : Handlers) (count : ℕ) (alloc : Bool) (now : ℕ) (s : Stat) (conn : Connection)
    (h : Header) (body : Bytes) (read : ℕ → ReadAnswer)
    → conn.state ≡ idle
    → Admits l h (length body)
    → length (request_bytes h body) ≤ conn.recv.capacity
    → read buffer_size ≡ arrived (request_bytes h body)
    → handle_read_event l hs count alloc now read s conn ≡ (
        process_data hs count
          (record s {
            request = s.request + 1;
            recv_bytes = s.recv_bytes + length (request_bytes h body);
          })
          (requested now h body conn)
        >>= answered (record s {
          request = s.request + 1;
          recv_bytes = s.recv_bytes + length (request_bytes h body);
        }))
unfolding handle_read_event take_answer after_read finish_read receive start_request
handle_read_event-request l hs count alloc now s conn h body read e a k r =
    let n : 0 < length (request_bytes h body) = omega (arith, length-request_bytes h body) in
    rw
      (
        r,
        nonzero (length (request_bytes h body)) n,
        receive-request now h body conn e k,
        parse_header-requested l alloc (received now h body conn) h body a refl refl,
        le→leb (length body + header_size) (length (request_bytes h body))
            (omega (arith, length-request_bytes h body)),
      )
      refl
