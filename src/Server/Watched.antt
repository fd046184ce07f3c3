-- ===== src/Server/Watched.antt =====
-- server.cc: what epoll is asked to report of each connection, against the state of the connection.
use stoxdb.Prelude.{
  ℕ, ◌==◌, Bool, true, false, ◌≡◌, sym, ◌∙◌, ap, subst, some, some-inj, inl, inr, Bool-cases,
  ==_iff,
}
use stoxdb.Outcome.{Ensures, done, Ensures-bind, if_both}
use stoxdb.Connection.{State, writing, Connection}
use stoxdb.Connection.Slots.{store_self}
use stoxdb.Connection.States.{close_connection-Leaves}
use stoxdb.Server.{Verdict, close, go_on, await_output, await_input}
use stoxdb.Server.Loop.{
  Interest, for_input, for_output, Poll, register, close_polled, mod_epoll_event, put_connection,
  apply_verdict,
}

-- A connection waits for output while it sends a response, and for input otherwise.
abbrev pub interest_of : State → Interest
interest_of writing = for_output
interest_of _ = for_input

abbrev pub Watched : Poll → Type 0
Watched p = (b : ℕ) (c : Connection) → p.manager.heap b ≡ some c → p.watch b ≡ interest_of c.state

-- The same for every address but one.
abbrev WatchedBut : ℕ → Poll → Type 0
WatchedBut a p =
    (b : ℕ) (c : Connection)
    → (b == a) ≡ false
    → p.manager.heap b ≡ some c
    → p.watch b ≡ interest_of c.state

pub close_polled-Watched : (p : Poll) (a : ℕ) → WatchedBut a p → Ensures Watched (close_polled p a)
unfolding close_polled
close_polled-Watched p a w = Ensures-bind (close_connection-Leaves p.manager a) λ m (gone, same).
    done λ b c e. elim (Bool-cases (b == a)) [
      | inl q ↦ absurd (gone c (subst (λ v. m.heap v ≡ some c) ((==_iff b a).0 q) e))
      | inr q ↦ (let (d, f, s) = same b c e in w b d q f ∙ ap interest_of (sym s))
    ]

pub mod_epoll_event-Watched :
    (epoll : Bool) (i : Interest) (p : Poll) (a : ℕ)
    → WatchedBut a p
    → ((c : Connection) → p.manager.heap a ≡ some c → i ≡ interest_of c.state)
    → Ensures Watched (mod_epoll_event epoll i p a)
unfolding mod_epoll_event register
mod_epoll_event-Watched false i p a w h = close_polled-Watched p a w
mod_epoll_event-Watched true i p a w h = done λ b c e.
    if_both (λ j. j ≡ interest_of c.state) (b == a)
      (λ q. h c (subst (λ v. p.manager.heap v ≡ some c) ((==_iff b a).0 q) e)) λ q. w b c q e

-- What a verdict asks for is what the state of the connection needs.
abbrev pub Apt : Verdict → Interest → State → Type 0
Apt close i s = Unit {0}
Apt go_on i s = i ≡ interest_of s
Apt await_output i s = for_output ≡ interest_of s
Apt await_input i s = for_input ≡ interest_of s

put_connection-WatchedBut :
    (p : Poll) (a : ℕ) (conn : Connection) → Watched p → WatchedBut a (put_connection a conn p)
unfolding put_connection
put_connection-WatchedBut p a conn w b c q =
    if_both (λ o. o ≡ some c → p.watch b ≡ interest_of c.state) (b == a) (λ z. absurd (cc))
      λ _ e. w b c e

put_connection-here :
    (p : Poll) (a : ℕ) (conn : Connection) (i : Interest) (c : Connection)
    → i ≡ interest_of conn.state
    → (put_connection a conn p).manager.heap a ≡ some c
    → i ≡ interest_of c.state
unfolding put_connection
put_connection-here p a conn i c h e =
    let q = store_self p.manager.heap a (some conn) in
    let z : some conn ≡ some c = sym q ∙ e in h ∙ ap (λ d. interest_of d.state) (some-inj z)

pub apply_verdict-Watched :
    (epoll : Bool) (v : Verdict) (conn : Connection) (p : Poll) (a : ℕ)
    → Watched p
    → Apt v (p.watch a) conn.state
    → Ensures Watched (apply_verdict epoll v conn p a)
unfolding apply_verdict put_connection
apply_verdict-Watched epoll close conn p a w h =
    close_polled-Watched _ a (put_connection-WatchedBut p a conn w)
apply_verdict-Watched epoll await_output conn p a w h =
    mod_epoll_event-Watched epoll for_output _ a (put_connection-WatchedBut p a conn w)
      λ c. put_connection-here p a conn for_output c h
apply_verdict-Watched epoll await_input conn p a w h =
    mod_epoll_event-Watched epoll for_input _ a (put_connection-WatchedBut p a conn w)
      λ c. put_connection-here p a conn for_input c h
apply_verdict-Watched epoll go_on conn p a w h = done λ b c e. elim (Bool-cases (b == a)) [
  | inl q ↦
      (let z = (==_iff b a).0 q in
        ap p.watch z
        ∙ put_connection-here p a conn (p.watch a) c h
            (subst (λ v. (put_connection a conn p).manager.heap v ≡ some c) z e))
  | inr q ↦ put_connection-WatchedBut p a conn w b c q e
]
