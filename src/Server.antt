-- ===== src/Server.antt =====
-- netypes.h, server.h and server.cc: the state machine of a connection in `handle_read_event`,
-- `parse_header`, `process_data` and `handle_write_event`, and `opt_status`. What `read` and `write`
-- answer is an argument, and so are the handlers of the requests, the methods of `Record`. The change of
-- the events that epoll waits for is asked of the loop by a verdict. Behind an exception of a handler the
-- buffers are as before: the connection is closed then.
pub mod Loop
pub mod Watched
pub mod Reach
pub mod Clients
pub mod Events
pub mod Verdicts
pub mod Overflow
pub mod Request
pub mod Received
pub mod Response
use stoxdb.Prelude.{
  ℕ, ◌+◌, ◌-◌, ◌<◌, ◌^◌, List, [], ◌∷◌, ◌++◌, Bool, true, false, not, ◌&&◌, ◌||◌, ltb, leb, ◌==◌,
  if◌then◌else◌, length, take, drop, Option, none, some,
}
use stoxdb.Prelude.Int.{ℤ, pos, negsuc}
use stoxdb.Outcome.{Outcome, ok, err, ub, hang, ◌>>=◌}
use stoxdb.Base.{Bytes}
use stoxdb.Base.Bytes.{setint, setint4, setint8, getint4}
use stoxdb.Buffer.{Buffer, int_limit, expand_buffer}
use stoxdb.Connection.{
  State, reading_header, reading_body, writing, idle, Connection, Manager, buffer_size, store, load,
  accept_connection, close_connection,
}

-- `stat_t`.
pub record Stat : Type 0 where
  pub total : ℕ
  pub request : ℕ
  pub error : ℕ
  pub response : ℕ
  pub recv_bytes : ℕ
  pub send_bytes : ℕ

-- `header_t`.
pub record Header : Type 0 where
  pub magic : ℤ
  pub size : ℤ
  pub opt : ℤ

-- The settings that the server reads.
pub record Limits : Type 0 where
  pub magic_number : ℤ
  pub max_recv_size : ℕ

-- What `read` and `write` answer: a positive number, zero, an error to wait for, another error.
pub data ReadAnswer : Type 0 where
  arrived : (bytes : Bytes) → ReadAnswer
  wait broken : ReadAnswer

pub data WriteAnswer : Type 0 where
  sent : ℕ → WriteAnswer
  wait broken : WriteAnswer

-- `HEADER_SIZE`.
abbrev pub header_size : ℕ
header_size = 12

-- What a handler is given and gives back: the receive buffer and the send buffer.
abbrev pub Buffers : Type 0
Buffers = Buffer × Buffer

abbrev pub Handler : Type 0
Handler = Buffers → Outcome (Bool × Buffers)

-- The methods of `Record` that `process_data` calls.
pub record Handlers : Type 0 where
  pub opt_test : Handler
  pub opt_conf : Handler
  pub opt_column : Handler
  pub opt_detail : Handler
  pub opt_dump : Handler
  pub opt_set : Handler
  pub opt_get : Handler
  pub opt_agg : Handler
  pub opt_del : Handler

-- `header_t` at the start of the buffer.
unfoldable pub read_header : Bytes → Outcome Header
read_header p = getint4 p >>= λ a.
    getint4 a.1 >>= λ b. getint4 b.1 >>= λ c. ok (record { magic = a.0; size = b.0; opt = c.0 })

abbrev pub eq_ℤ : ℤ → ℤ → Bool
eq_ℤ (pos a) (pos b) = a == b
eq_ℤ (negsuc a) (negsuc b) = a == b
eq_ℤ _ _ = false

-- The size of the whole request, where the header is accepted: the magic number fits, the size is not
-- negative, and the request is no longer than allowed. An `int` that overflows is undefined behaviour.
unfoldable pub check_header : Limits → Header → Outcome (Option ℕ)
check_header l h =
    if eq_ℤ h.magic l.magic_number
    then elim h.size [
      | negsuc n ↦ ok none
      | pos n ↦
          if ltb (n + header_size) int_limit
          then ok (if ltb l.max_recv_size (n + header_size) then none else some (n + header_size))
          else ub
    ]
    else ok none

-- `conn->recv.size - conn->recv.offset`.
abbrev pub difference : ℕ → ℕ → ℤ
difference a b = if leb b a then pos (a - b) else negsuc (b - a - 1)

-- `parse_header`: the answer and the connection. `alloc` is what `realloc` answers.
unfoldable pub parse_header : Limits → Bool → Connection → Outcome (Bool × Connection)
parse_header l alloc conn =
    if ltb conn.recv.offset header_size
    then ok (true, conn)
    else (read_header conn.recv.contents >>= λ h. check_header l h >>= λ r. elim r [
      | none ↦ ok (false, conn)
      | some size ↦
          expand_buffer alloc (record (conn.recv) { size = size })
            (difference size conn.recv.offset)
          >>= λ e. ok (e.0, record conn { state = reading_body; opt = h.opt; recv = e.1 })
    ])

-- `opt_status`: the counters, as eight bytes each. The bytes in front of `offset` are not moved.
unfoldable pub opt_status : ℕ → Stat → Buffer → Bool × Buffer
opt_status count s send =
    let body =
      setint8 (pos count)
      ++ setint8 (pos s.total)
      ++ setint8 (pos s.request)
      ++ setint8 (pos s.error)
      ++ setint8 (pos s.response)
      ++ setint8 (pos s.recv_bytes)
      ++ setint8 (pos s.send_bytes) in
    (
      true,
      record send {
        contents = setint4 (pos (length body + 4)) ++ setint4 (pos 0) ++ body;
        size = length body + 8;
      },
    )

-- An exception ends in `false`.
abbrev pub caught : Buffers → Outcome (Bool × Buffers) → Outcome (Bool × Buffers)
caught b (ok r) = ok r
caught b (err m) = ok (false, b)
caught b ub = ub
caught b hang = hang

-- `switch (conn->opt)`.
unfoldable pub dispatch : Handlers → ℕ → Stat → ℤ → Handler
dispatch h count s (negsuc n) b = ok (false, b)
dispatch h count s (pos n) b =
    if n == 1
    then h.opt_test b
    else if n == 2
    then h.opt_conf b
    else if n == 5
    then (let r = opt_status count s b.1 in ok (r.0, (b.0, r.1)))
    else if n == 3
    then h.opt_column b
    else if n == 4
    then h.opt_detail b
    else if n == 10
    then h.opt_dump b
    else if n == 11
    then h.opt_set b
    else if n == 12
    then h.opt_get b
    else if n == 13
    then h.opt_agg b
    else if n == 14
    then h.opt_del b
    else ok (false, b)

-- `process_data`: the connection with what the handler did to its buffers.
unfoldable pub process_data : Handlers → ℕ → Stat → Connection → Outcome (Bool × Connection)
unfolding dispatch
process_data h count s conn =
    caught (conn.recv, conn.send) (dispatch h count s conn.opt (conn.recv, conn.send)) >>= λ r.
    ok (r.0, record conn { recv = r.1.0; send = r.1.1 })

-- The bytes that `read` stores behind the offset: undefined behaviour past the end of the space.
unfoldable pub receive : ℕ → Bytes → Connection → Outcome Connection
receive now bytes conn =
    if ltb conn.recv.capacity (conn.recv.offset + length bytes)
    then ub
    else ok (record conn {
      recv = record (conn.recv) {
        contents = take conn.recv.offset conn.recv.contents ++ bytes;
        offset = conn.recv.offset + length bytes;
      };
      last_active = now;
      total_bytes_recv = conn.total_bytes_recv + length bytes;
    })

-- The first data of a request.
unfoldable pub start_request : Connection → Connection
start_request conn = elim conn.state [
  | idle ↦ record conn {
    state = reading_header;
    recv = record (conn.recv) { offset = 0; size = 0 };
  }
  | _ ↦ conn
]

-- What an event asks of the event loop: to close the connection, to go on, or to wait for another
-- kind of event (`mod_epoll_event`).
pub data Verdict : Type 0 where
  close go_on await_output await_input : Verdict

module _ (l : Limits) (h : Handlers) (count : ℕ) where
  -- A request that is complete is processed.
  unfoldable pub finish_read : Stat → Connection → Outcome (Verdict × Stat × Connection)
  finish_read s conn = elim conn.state [
    | reading_body ↦
        if leb conn.recv.size conn.recv.offset
        then (let s' = record s { recv_bytes = s.recv_bytes + conn.recv.offset } in
            process_data h count s' (record conn { request_count = conn.request_count + 1 })
            >>= λ r.
                if r.0
                then ok (
                  await_output,
                  s',
                  record (r.1) { state = writing; send = record (r.1.send) { offset = 0 } },
                )
                else ok (close, s', r.1))
        else ok (go_on, s, conn)
    | _ ↦ ok (go_on, s, conn)
  ]

  -- After the read: the header, where it is not read yet, then the request.
  unfoldable pub after_read : Bool → Stat → Connection → Outcome (Verdict × Stat × Connection)
  unfolding finish_read
  after_read alloc s conn = elim conn.state [
    | reading_header ↦
        (let s' = record s { request = s.request + 1 } in
          parse_header l alloc conn >>= λ r.
          if r.0 then finish_read s' r.1 else ok (close, record s' { error = s'.error + 1 }, r.1))
    | _ ↦ finish_read s conn
  ]

  -- What `read` answered.
  unfoldable pub take_answer :
      Bool → ℕ → ReadAnswer → Stat → Connection → Outcome (Verdict × Stat × Connection)
  unfolding after_read receive
  take_answer alloc now (arrived bytes) s conn =
      if length bytes == 0
      then ok (close, s, conn)
      else (receive now bytes conn >>= λ c. after_read alloc s c)
  take_answer alloc now ReadAnswer.wait s conn = after_read alloc s conn
  take_answer alloc now ReadAnswer.broken s conn = ok (close, s, conn)

  -- `read` answers to the number of bytes that it is offered, which is `BUFFER_SIZE` wherever the offset
  -- stands.
  unfoldable pub handle_read_event :
      Bool → ℕ → (ℕ → ReadAnswer) → Stat → Connection → Outcome (Verdict × Stat × Connection)
  unfolding take_answer start_request
  handle_read_event alloc now read s conn =
      take_answer alloc now (read buffer_size) s (start_request conn)

-- The bytes that are offered to `write`.
unfoldable pub write_size : Connection → ℕ
write_size conn =
    let left = conn.send.size - conn.send.offset in
    if ltb buffer_size left then buffer_size else left

-- The end of a response.
unfoldable pub finish_write : Stat → Connection → Verdict × Stat × Connection
finish_write s conn =
    if leb conn.send.size conn.send.offset
    then (
      await_input,
      record s { send_bytes = s.send_bytes + conn.send.size; response = s.response + 1 },
      record conn { state = idle },
    )
    else (go_on, s, conn)

-- `write` answers to the number of bytes that it is offered.
unfoldable pub handle_write_event :
    ℕ → (ℕ → WriteAnswer) → Stat → Connection → Verdict × Stat × Connection
unfolding finish_write write_size
handle_write_event now write s conn = elim conn.state [
  | writing ↦ elim (write (write_size conn)) [
    | sent n ↦
        if ltb 0 n
        then finish_write s (record conn {
          send = record (conn.send) { offset = conn.send.offset + n };
          last_active = now;
          total_bytes_sent = conn.total_bytes_sent + n;
        })
        else finish_write s conn
    | wait ↦ finish_write s conn
    | broken ↦ (close, s, conn)
  ]
  | _ ↦ (go_on, s, conn)
]
