-- ===== src/Server/Loop.antt =====
-- `mod_epoll_event` and the body of the loop of `Server::start` in server.cc: a new client, one event of a
-- connection, and the cleanup.
use stoxdb.Prelude.{ℕ, ◌+◌, Bool, true, false, not, ◌&&◌, ◌==◌, ltb, if◌then◌else◌, length, some}
use stoxdb.Outcome.{Outcome, ok, ◌>>=◌}
use stoxdb.Connection.{
  Connection, Manager, store, load, accept_connection, close_connection, cleanup_idle_connections,
}
use stoxdb.Server.{
  Stat, Limits, Handlers, ReadAnswer, WriteAnswer, Verdict, close, go_on, await_output, await_input,
  handle_read_event, handle_write_event,
}

-- The kind of event that a connection is registered for; a closed end is always reported.
pub data Interest : Type 0 where
  for_input for_output : Interest

-- The connections, and what epoll is asked to report of each of them.
pub record Poll : Type 0 where
  pub manager : Manager
  pub watch : ℕ → Interest

unfoldable pub register : ℕ → Interest → Poll → Poll
register a i p = record p { watch = λ b. if b == a then i else p.watch b }

unfoldable pub close_polled : Poll → ℕ → Outcome Poll
close_polled p a = close_connection p.manager a >>= λ m. ok (record p { manager = m })

-- `mod_epoll_event`, where `epoll` says whether the call succeeded: if not, the connection is closed.
unfoldable pub mod_epoll_event : Bool → Interest → Poll → ℕ → Outcome Poll
mod_epoll_event epoll i p a = if epoll then ok (register a i p) else close_polled p a

unfoldable pub put_connection : ℕ → Connection → Poll → Poll
put_connection a conn p = record p {
  manager = record (p.manager) { heap = store p.manager.heap a (some conn) };
}

-- The end of a handler and what the event loop does behind it.
unfoldable pub apply_verdict : Bool → Verdict → Connection → Poll → ℕ → Outcome Poll
unfolding mod_epoll_event
apply_verdict epoll v conn p a =
    let p' = put_connection a conn p in
    elim v [
      | close ↦ close_polled p' a
      | go_on ↦ ok p'
      | await_output ↦ mod_epoll_event epoll for_output p' a
      | await_input ↦ mod_epoll_event epoll for_input p' a
    ]

-- What epoll reports of a connection.
pub record Event : Type 0 where
  pub address : ℕ
  pub hangup : Bool
  pub input : Bool
  pub output : Bool

abbrev pub is_close : Verdict → Bool
is_close close = true
is_close _ = false

-- What the kernel and the allocator answer while an event is handled.
pub record Answers : Type 0 where
  pub now : ℕ
  pub alloc : Bool
  pub read : ℕ → ReadAnswer
  pub write : ℕ → WriteAnswer
  pub epoll_output : Bool
  pub epoll_input : Bool

module _ (l : Limits) (h : Handlers) (k : Answers) where
  -- The branch EPOLLOUT.
  unfoldable pub write_branch : ℕ → Stat → Poll → Outcome (Stat × Poll)
  unfolding apply_verdict
  write_branch a s p = load p.manager a >>= λ c.
      let r = handle_write_event k.now k.write s c in
      apply_verdict k.epoll_input r.0 r.2 p a >>= λ p'. ok (r.1, p')

  -- The branch EPOLLIN: and whether the connection was closed, so that the event is done.
  unfoldable pub read_branch : ℕ → Stat → Poll → Outcome (Bool × Stat × Poll)
  unfolding apply_verdict
  read_branch a s p = load p.manager a >>= λ c.
      handle_read_event l h (length p.manager.connections) k.alloc k.now k.read s c >>= λ r.
      apply_verdict k.epoll_output r.0 r.2 p a >>= λ p'. ok (is_close r.0, r.1, p')

  -- One event of the loop of `Server::start`. Behind a read the connection is read from the heap again:
  -- undefined behaviour where `mod_epoll_event` freed it.
  unfoldable pub handle_event : Event → Stat → Poll → Outcome (Stat × Poll)
  unfolding read_branch write_branch
  handle_event e s p =
      if e.hangup
      then (close_polled p e.address >>= λ p'. ok (s, p'))
      else ((if e.input then read_branch e.address s p else ok (false, s, p)) >>= λ r.
          if not r.0 && e.output then write_branch e.address r.1 r.2 else ok (r.1, r.2))

-- A new client in the loop of `Server::start`: `accept_connection`, the counter, and epoll, whose
-- refusal closes the connection again.
unfoldable pub handle_accept :
    Bool → Bool × Bool × Bool → ℕ → ℕ → ℕ → Stat → Poll → Outcome (Stat × Poll)
unfolding mod_epoll_event
handle_accept epoll alloc a fd now s p =
    let p' = record p { manager = accept_connection alloc a fd now p.manager } in
    if ltb (length p.manager.connections) (length p'.manager.connections)
    then (mod_epoll_event epoll for_input p' a >>= λ p''.
        ok (record s { total = s.total + 1 }, p''))
    else ok (s, p')

-- The cleanup that the loop does every ten seconds.
unfoldable pub handle_cleanup : ℕ → ℕ → ℕ → Stat → Poll → Outcome (Stat × Poll)
handle_cleanup now idle_timeout transport_timeout s p =
    cleanup_idle_connections now idle_timeout transport_timeout p.manager >>= λ m.
    ok (s, record p { manager = m })
