-- ===== src/Connection.antt =====
-- connection.h, connection.cc and the accept branch of `Server::start`. The heap maps an address to the
-- connection that stands there, `none` once it is freed; `connections` is the first `count` slots of
-- the array. What the operating system answers (`calloc`, `malloc`, the clock) is an argument; the
-- calls of `close` are recorded, those of `epoll_ctl` and `printf` and the client's address are not.
pub mod Slots
pub mod Close
pub mod Cleanup
pub mod Accept
pub mod States
use stoxdb.Prelude.{
  ℕ, zero, suc, ◌+◌, ◌-◌, List, [], ◌∷◌, ◌++◌, Bool, true, false, ◌&&◌, ltb, leb, ◌==◌,
  if◌then◌else◌, length, get_elem?, set, take, Option, none, some,
}
use stoxdb.Prelude.Int.{ℤ, pos}
use stoxdb.Outcome.{Outcome, ok, ub, hang, ◌>>=◌}
use stoxdb.Buffer.{Buffer, init_buffer}

-- `enum conn_state`.
pub data State : Type 0 where
  reading_header reading_body writing idle : State

-- `connection_t`.
pub record Connection : Type 0 where
  pub id : ℕ
  pub fd : ℕ
  pub state : State
  pub opt : ℤ
  pub recv : Buffer
  pub send : Buffer
  pub last_active : ℕ
  pub start_time : ℕ
  pub request_count : ℕ
  pub error_count : ℕ
  pub total_bytes_recv : ℕ
  pub total_bytes_sent : ℕ

abbrev pub Heap : Type 0
Heap = ℕ → Option Connection

-- `connection_manager_t`.
pub record Manager : Type 0 where
  pub connections : List ℕ
  pub max_count : ℕ
  pub heap : Heap
  pub closed : List ℕ

-- `BUFFER_SIZE`.
abbrev pub buffer_size : ℕ
buffer_size = 8192

abbrev pub store : Heap → ℕ → Option Connection → Heap
store heap a c b = if b == a then c else heap b

unfoldable pub load : Manager → ℕ → Outcome Connection
load m a = elim (m.heap a) [ none ↦ ub | some c ↦ ok c ]

-- `create_connection`; the answers are those of `calloc` and of the two `malloc`.
unfoldable pub create_connection : Bool × Bool × Bool → ℕ → ℕ → Option Connection
create_connection alloc fd now =
    let recv = init_buffer alloc.1 buffer_size in
    let send = init_buffer alloc.2 buffer_size in
    if alloc.0 && recv.0 && send.0
    then some (record {
      id = 0;
      fd = fd;
      state = idle;
      opt = pos 0;
      recv = recv.1;
      send = send.1;
      last_active = now;
      start_time = now;
      request_count = 0;
      error_count = 0;
      total_bytes_recv = 0;
      total_bytes_sent = 0;
    })
    else none

abbrev pub close_fd : Manager → ℕ → Manager
close_fd m fd = record m { closed = fd ∷ m.closed }

-- A new client in `Server::start`: refused at the limit or without memory, else stored at `a`.
unfoldable pub accept_connection : Bool × Bool × Bool → ℕ → ℕ → ℕ → Manager → Manager
accept_connection alloc a fd now m =
    if leb m.max_count (length m.connections)
    then close_fd m fd
    else elim (create_connection alloc fd now) [
      | none ↦ close_fd m fd
      | some c ↦ record m {
        connections = m.connections ++ a ∷ [];
        heap = store m.heap a (some (record c { id = length m.connections }));
      }
    ]

-- `connections[count - 1]`.
unfoldable pub last_slot : Manager → Outcome ℕ
last_slot m = elim (get_elem? m.connections (length m.connections - 1)) [
  | none ↦ ub
  | some a ↦ ok a
]

abbrev pub free_fd : ℕ → List ℕ → List ℕ
free_fd fd closed = if ltb 0 fd then fd ∷ closed else closed

-- The last connection takes the place of the closed one, and its number.
unfoldable pub close_connection : Manager → ℕ → Outcome Manager
unfolding last_slot
close_connection m a = load m a >>= λ conn. last_slot m >>= λ b. load m b >>= λ last.
    if ltb conn.id m.max_count
    then ok (record m {
      connections = take (length m.connections - 1) (set m.connections conn.id b);
      heap = store (store m.heap b (some (record last { id = conn.id }))) a none;
      closed = free_fd conn.fd m.closed;
    })
    else ub

-- A connection that was idle too long, or is too slow with a request or a response.
unfoldable pub is_expired : ℕ → ℕ → ℕ → Connection → Bool
is_expired now idle_timeout recv_timeout c = elim c.state [
  | idle ↦ ltb (c.last_active + idle_timeout) now
  | _ ↦ ltb (c.last_active + recv_timeout) now
]

-- The body of the loop of `cleanup_idle_connections`: the manager without the connection, or `none`
-- where it stays.
unfoldable pub cleanup_step : ℕ → ℕ → ℕ → Manager → ℕ → Outcome (Option Manager)
cleanup_step now idle_timeout recv_timeout m a = load m a >>= λ c.
    if is_expired now idle_timeout recv_timeout c
    then (close_connection m a >>= λ m'. ok (some m'))
    else ok none

-- The loop from slot `i` on, on fuel. After a removal the slot is looked at again.
unfoldable pub cleanup_loop : ℕ → ℕ → ℕ → ℕ → ℕ → Manager → Outcome Manager
cleanup_loop now idle_timeout recv_timeout zero i m =
    if ltb i (length m.connections) then hang else ok m
cleanup_loop now idle_timeout recv_timeout (suc n) i m = elim (get_elem? m.connections i) [
  | none ↦ ok m
  | some a ↦ cleanup_step now idle_timeout recv_timeout m a >>= λ r. elim r [
    | some m' ↦ cleanup_loop now idle_timeout recv_timeout n i m'
    | none ↦ cleanup_loop now idle_timeout recv_timeout n (suc i) m
  ]
]

unfoldable pub cleanup_idle_connections : ℕ → ℕ → ℕ → Manager → Outcome Manager
cleanup_idle_connections now idle_timeout recv_timeout m =
    cleanup_loop now idle_timeout recv_timeout (length m.connections) 0 m
