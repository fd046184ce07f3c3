-- ===== src/Tests/Connections.antt =====
-- A manager with two connections, at the addresses 10 and 20, and requests on one of them.
use stoxdb.Prelude.{
  false, ℕ, zero, suc, ◌+◌, ◌≤◌, ◌<◌, [], ◌∷◌, ◌++◌, true, ◌==◌, ◌≡◌, refl, ◌⊎◌, some, none, length,
  get_elem?, replicate, length-replicate, if◌then◌else◌, arith, subst,
}
use stoxdb.Prelude.Int.{pos}
use stoxdb.Outcome.{ok, ub, ◌>>=◌}
use stoxdb.Base.{Bytes}
use stoxdb.Base.Bytes.{setint, getint}
use stoxdb.Buffer.{Buffer, init_buffer, expand_buffer}
use stoxdb.Connection.{
  store, load, State, writing, idle, Connection, Manager, create_connection, close_fd,
  accept_connection, close_connection, cleanup_idle_connections,
}
use stoxdb.Connection.Close.{close_connection-Closes}
use stoxdb.Connection.Slots.{WellFormed, Closes}
use stoxdb.Connection.Cleanup.{FreshBelow, Keeps, cleanup_idle_connections-Keeps}
use stoxdb.Connection.Accept.{accept_connection-WellFormed}
use stoxdb.Server.{
  read_header, check_header, parse_header, Stat, Header, Limits, Handlers, Handler, sent, go_on,
  await_input, handle_read_event, process_data, handle_write_event, write_size,
}
use stoxdb.Server.Loop.{
  for_input, for_output, Poll, register, put_connection, Event, Answers, handle_event,
  handle_accept,
}
use stoxdb.Server.Watched.{Watched}
use stoxdb.Server.Reach.{here, after, accepts, reports, Reaches-Watched}
use stoxdb.Server.Overflow.{peer, handle_read_event-overflow}
use stoxdb.Server.Response.{handle_write_event-progress}
use stoxdb.Server.Received.{request_bytes}
use stoxdb.Server.Request.{requested, answered, handle_read_event-request}

abbrev space : ℕ → ℕ → Buffer
space offset size = record { contents = []; capacity = 8192; offset = offset; size = size }

abbrev client : ℕ → State → Connection
client id state = record {
  id = id;
  fd = 7;
  state = state;
  opt = pos 0;
  recv = space 8000 9000;
  send = space 5 20;
  last_active = 100;
  start_time = 0;
  request_count = 0;
  error_count = 0;
  total_bytes_recv = 0;
  total_bytes_sent = 0;
}

abbrev manager : Manager
manager = record {
  connections = 10 ∷ 20 ∷ [];
  max_count = 3;
  heap =
      λ a. if a == 10 then some (client 0 idle) else if a == 20 then some (client 1 idle) else none;
  closed = [];
}

manager-WellFormed : WellFormed manager
manager-WellFormed = (omega arith, slots)
  where
    slots :
        (i a : ℕ)
        → get_elem? manager.connections i ≡ some a
        → (c : Connection) × (manager.heap a ≡ some c) × (c.id ≡ i)
    slots zero a h =
        let z : 10 ≡ a = cc in
        subst (λ b. (c : Connection) × (manager.heap b ≡ some c) × (c.id ≡ 0)) z
          (client 0 idle, refl, refl)
    slots (suc zero) a h =
        let z : 20 ≡ a = cc in
        subst (λ b. (c : Connection) × (manager.heap b ≡ some c) × (c.id ≡ 1)) z
          (client 1 idle, refl, refl)
    slots (suc (suc i)) a h = absurd (cc)

close_connection-Closes_example :
    (m' : Manager) × (close_connection manager 10 ≡ ok m') × Closes manager 0 10 m'
close_connection-Closes_example = close_connection-Closes manager 0 10 manager-WellFormed refl

cleanup_idle_connections-Keeps_example :
    (m' : Manager) × (cleanup_idle_connections 200 60 10 manager ≡ ok m')
    × WellFormed m'
    × FreshBelow 200 60 10 (length m'.connections) m'
    × Keeps 200 60 10 manager m'
cleanup_idle_connections-Keeps_example =
    cleanup_idle_connections-Keeps 200 60 10 manager manager-WellFormed

accept_connection-WellFormed_example :
    WellFormed (accept_connection (true, true, true) 30 9 100 manager)
    × (((accept_connection (true, true, true) 30 9 100 manager ≡ close_fd manager 9)
          × ((3 ≤ 2) ⊎ (create_connection (true, true, true) 9 100 ≡ none)))
        ⊎ ((2 < 3)
            × ((accept_connection (true, true, true) 30 9 100 manager).connections
                ≡ (10 ∷ 20 ∷ []) ++ 30 ∷ [])
            × (c : Connection) × ((accept_connection (true, true, true) 30 9 100 manager).heap 30
                ≡ some c)
            × (c.fd ≡ 9)
            × (c.state ≡ State.idle)))
accept_connection-WellFormed_example =
    accept_connection-WellFormed (true, true, true) 30 9 100 manager manager-WellFormed refl

abbrev counters : Stat
counters = record {
  total = 1;
  request = 0;
  error = 0;
  response = 0;
  recv_bytes = 0;
  send_bytes = 0;
}

abbrev limits : Limits
limits = record { magic_number = pos 77; max_recv_size = 1000 }

-- Each request succeeds and changes nothing.
abbrev succeed : Handler
succeed b = ok (true, b)

abbrev handlers : Handlers
handlers = record {
  opt_test = succeed;
  opt_conf = succeed;
  opt_column = succeed;
  opt_detail = succeed;
  opt_dump = succeed;
  opt_set = succeed;
  opt_get = succeed;
  opt_agg = succeed;
  opt_del = succeed;
}

abbrev header : Header
header = record { magic = pos 77; size = pos 2; opt = pos 12 }

abbrev body : Bytes
body = b'a' ∷ b'b' ∷ []

abbrev counted : Stat
counted = record counters { request = 0 + 1; recv_bytes = 0 + length (request_bytes header body) }

handle_read_event-request_example :
    handle_read_event limits handlers 2 true 300
      (peer (request_bytes header body))
      counters
      (client 0 idle)
    ≡ (process_data handlers 2 counted (requested 300 header body (client 0 idle))
        >>= answered counted)
unfolding setint
handle_read_event-request_example =
    handle_read_event-request limits handlers 2 true 300 counters (client 0 idle) header body
      (peer (request_bytes header body)) refl
      (omega arith, omega arith, refl, refl, omega arith, omega arith) (omega arith) refl

handle_write_event-progress_example :
    (c : Connection) × (c.send.offset ≡ 5 + 4)
    × (c.send.offset ≤ c.send.size)
    × (c.send.size ≡ 20)
    × (((c.send.offset < c.send.size)
          × (c.state ≡ writing)
          × (handle_write_event 300 (λ _. sent 4) counters (client 0 writing)
              ≡ (go_on, counters, c)))
        ⊎ ((c.send.offset ≡ c.send.size)
            × (c.state ≡ idle)
            × (handle_write_event 300 (λ _. sent 4) counters (client 0 writing)
                ≡ (await_input, record counters { send_bytes = 0 + 20; response = 0 + 1 }, c))))
unfolding write_size
handle_write_event-progress_example =
    handle_write_event-progress 300 4 counters (client 0 writing) refl (omega arith) (omega arith)
      (omega arith)

abbrev many : Bytes
many = replicate 10000 b'x'

many-length : length many ≡ 10000
many-length = length-replicate {A = ℕ} 10000 b'x'

handle_read_event-overflow_example :
    (s : Stat) × (c : Connection) × (handle_read_event limits handlers 2 true 300
        (peer (77 ∷ []))
        counters
        (client 0 idle)
      ≡ ok (go_on, s, c))
    × (handle_read_event limits handlers 2 true 300 (peer many) s c ≡ ub)
handle_read_event-overflow_example =
    handle_read_event-overflow limits handlers 2 true 300 (77 ∷ []) many counters (client 0 idle)
      refl refl (omega arith) (omega arith) (omega (arith, many-length))

-- A server without connections, and with one that was just accepted.
abbrev empty_poll : Poll
empty_poll = record {
  manager = record { connections = []; max_count = 5; heap = λ b. none; closed = [] };
  watch = λ b. for_input;
}

abbrev fresh : Connection
fresh = record {
  id = 0;
  fd = 9;
  state = idle;
  opt = pos 0;
  recv = record { contents = []; capacity = 8192; offset = 0; size = 0 };
  send = record { contents = []; capacity = 8192; offset = 0; size = 0 };
  last_active = 100;
  start_time = 100;
  request_count = 0;
  error_count = 0;
  total_bytes_recv = 0;
  total_bytes_sent = 0;
}

abbrev one_poll : Poll
one_poll = record {
  manager = record {
    connections = 30 ∷ [];
    max_count = 5;
    heap = store (λ b. none) 30 (some fresh);
    closed = [];
  };
  watch = λ b. if b == 30 then for_input else for_input;
}

one_accepted :
    handle_accept true (true, true, true) 30 9 100 counters empty_poll
    ≡ ok (record counters { total = 2 }, one_poll)
unfolding handle_accept accept_connection create_connection init_buffer register
one_accepted = refl

abbrev answers : Answers
answers = record {
  now = 300;
  alloc = true;
  read = peer (request_bytes header body);
  write = λ _. sent 4;
  epoll_output = true;
  epoll_input = true;
}

abbrev input_event : Event
input_event = record { address = 30; hangup = false; input = true; output = false }

abbrev busy : Connection
busy = record (requested 300 header body fresh) { state = writing }

abbrev busy_stat : Stat
busy_stat = record counters { total = 2; request = 1; recv_bytes = 14 }

one_busy :
    handle_event limits handlers answers input_event (record counters { total = 2 }) one_poll
    ≡ ok (busy_stat, register 30 for_output (put_connection 30 busy one_poll))
unfolding handle_event handle_read_event read_header check_header process_data setint getint load
    parse_header expand_buffer
one_busy = refl

Reaches-Watched_example : Watched (register 30 for_output (put_connection 30 busy one_poll))
Reaches-Watched_example =
    Reaches-Watched {l = limits} {hs = handlers} {q = (counters, empty_poll)} (λ b. refl)
      (after (after here (accepts true (true, true, true) 30 9 100 one_accepted))
        (reports answers input_event (λ _. refl, λ e. absurd (cc)) one_busy))
