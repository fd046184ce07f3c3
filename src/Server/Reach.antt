-- ===== src/Server/Reach.antt =====
-- server.cc: the states that the loop of `Server::start` reaches.
use stoxdb.Prelude.{ℕ, Bool, ◌≡◌, none}
use stoxdb.Outcome.{ok, Ensures-eq}
use stoxdb.Server.{Stat, Limits, Handlers}
use stoxdb.Server.Loop.{Poll, Event, Answers, handle_event, handle_accept, handle_cleanup}
use stoxdb.Server.Events.{Reported, handle_event-Watched}
use stoxdb.Server.Clients.{handle_accept-Watched, handle_cleanup-Watched}
use stoxdb.Server.Watched.{Watched}

-- One round of the loop of `Server::start`: a new client, an event that epoll may report, or the cleanup.
pub data Step (l : Limits) (hs : Handlers) : Stat × Poll → Stat × Poll → Type 0 where
  accepts :
      (epoll : Bool) (alloc : Bool × Bool × Bool) (a fd now : ℕ) {s : Stat} {p : Poll}
      {q : Stat × Poll}
      → handle_accept epoll alloc a fd now s p ≡ ok q
      → Step l hs (s, p) q
  reports :
      (k : Answers) (e : Event) {s : Stat} {p : Poll} {q : Stat × Poll}
      → Reported p e
      → handle_event l hs k e s p ≡ ok q
      → Step l hs (s, p) q
  cleans :
      (now idle_timeout transport_timeout : ℕ) {s : Stat} {p : Poll} {q : Stat × Poll}
      → handle_cleanup now idle_timeout transport_timeout s p ≡ ok q
      → Step l hs (s, p) q

pub data Reaches (l : Limits) (hs : Handlers) : Stat × Poll → Stat × Poll → Type 0 where
  here : {q : Stat × Poll} → Reaches l hs q q
  after : {q r t : Stat × Poll} → Reaches l hs q r → Step l hs r t → Reaches l hs q t

Step-Watched :
    {l : Limits} {hs : Handlers} {q r : Stat × Poll} → Step l hs q r → Watched q.1 → Watched r.1
Step-Watched (accepts epoll alloc a fd now e) w =
    Ensures-eq (handle_accept-Watched epoll alloc a fd now _ _ w) e
Step-Watched {l} {hs} (reports k v o e) w = Ensures-eq (handle_event-Watched l hs k v _ _ w o) e
Step-Watched (cleans now idle_timeout transport_timeout e) w =
    Ensures-eq (handle_cleanup-Watched now idle_timeout transport_timeout _ _ w) e

-- A server without connections.
abbrev pub NoConnection : Poll → Type 0
NoConnection p = (b : ℕ) → p.manager.heap b ≡ none

-- Whatever clients, the allocator, `read`, `write`, the handlers and epoll answer, as long as epoll
-- reports of a connection only what it was asked to report: in each state that the loop reaches from a
-- server without connections, a connection is watched for output exactly while it is sending a
-- response, and for input otherwise.
pub Reaches-Watched :
    {l : Limits} {hs : Handlers} {q r : Stat × Poll}
    → NoConnection q.1
    → Reaches l hs q r
    → Watched r.1
Reaches-Watched n here = λ b c e. absurd (let z = n b in cc)
Reaches-Watched n (after t z) = Step-Watched z (Reaches-Watched n t)
