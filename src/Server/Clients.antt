-- ===== src/Server/Clients.antt =====
-- server.cc: a new client and the cleanup, and what epoll is asked to report behind them.
use stoxdb.Prelude.{
  ℕ, [], ◌∷◌, ◌<◌, arith, length-append, Bool, ◌&&◌, ◌≡◌, refl, sym, ◌∙◌, ap, some, none, some-inj,
  ltb, leb, length, ◌⊎◌, inl, inr,
}
use stoxdb.Outcome.{Ensures, done, Ensures-bind, if_both}
use stoxdb.Buffer.{init_buffer}
use stoxdb.Connection.{
  idle, buffer_size, Connection, Manager, store, create_connection, accept_connection,
}
use stoxdb.Connection.Slots.{store_self, store-ne, ==-false}
use stoxdb.Connection.States.{cleanup-SameStates}
use stoxdb.Server.{Stat}
use stoxdb.Server.Loop.{for_input, Poll, handle_accept, handle_cleanup}
use stoxdb.Server.Watched.{interest_of, Watched, mod_epoll_event-Watched}

-- A new client leaves the connections as they are, or there is one more, at its address and idle.
abbrev Accepted : Manager → ℕ → Manager → Type 0
Accepted m a m' =
    ((m'.heap ≡ m.heap) × (length m'.connections ≡ length m.connections))
    ⊎ ((c : Connection) × (c.state ≡ idle)
        × (m'.heap ≡ store m.heap a (some c))
        × (length m.connections < length m'.connections))

create_connection-idle :
    (alloc : Bool × Bool × Bool) (fd now : ℕ)
    → (create_connection alloc fd now ≡ none)
      ⊎ ((c : Connection) × (create_connection alloc fd now ≡ some c) × (c.state ≡ idle))
unfolding create_connection
create_connection-idle alloc fd now =
    if_both (λ o. (o ≡ none) ⊎ ((c : Connection) × (o ≡ some c) × (c.state ≡ idle)))
      (alloc.0 && (init_buffer alloc.1 buffer_size).0 && (init_buffer alloc.2 buffer_size).0)
      (λ _. inr (_, refl, refl)) λ _. inl refl

accept_connection-Accepted :
    (alloc : Bool × Bool × Bool) (a fd now : ℕ) (m : Manager)
    → Accepted m a (accept_connection alloc a fd now m)
unfolding accept_connection
accept_connection-Accepted alloc a fd now m =
    if_both (Accepted m a) (leb m.max_count (length m.connections)) (λ _. inl (refl, refl))
      λ _. elim (create_connection-idle alloc fd now) [
        | inl e ↦ rw e (inl (refl, refl))
        | inr (c, e, i) ↦ rw e (
            inr (
              record c { id = length m.connections },
              i,
              refl,
              omega (arith, length-append m.connections (a ∷ [])),
            ))
      ]

pub handle_accept-Watched :
    (epoll : Bool) (alloc : Bool × Bool × Bool) (a fd now : ℕ) (s : Stat) (p : Poll)
    → Watched p
    → Ensures (λ (r : Stat × Poll). Watched r.1) (handle_accept epoll alloc a fd now s p)
unfolding handle_accept
handle_accept-Watched epoll alloc a fd now s p w =
    let m = p.manager in
    let m' = accept_connection alloc a fd now m in
    elim (accept_connection-Accepted alloc a fd now m) [
      | inl (h, n) ↦
          if_both (Ensures λ (r : Stat × Poll). Watched r.1)
            (ltb (length m.connections) (length m'.connections))
            (λ t. absurd (ground (arith, t, n)))
            λ _. done λ b c e. w b c (sym (ap (λ g. g b) h) ∙ e)
      | inr (d, i, h, n) ↦
          if_both (Ensures λ (r : Stat × Poll). Watched r.1)
            (ltb (length m.connections) (length m'.connections))
            (λ _.
              Ensures-bind
                (mod_epoll_event-Watched epoll for_input _ a
                  (λ b c q e. w b c (
                    sym (store-ne m.heap a (some d) b (==-false b a q))
                    ∙ (sym (ap (λ g. g b) h) ∙ e)))
                  λ c e.
                    ap interest_of (sym i)
                    ∙ ap (λ x. interest_of x.state)
                        (some-inj
                          (sym (store_self m.heap a (some d)) ∙ (sym (ap (λ g. g a) h) ∙ e))))
                λ p' w'. done w')
            λ t. absurd (ground (arith, t, n))
    ]

pub handle_cleanup-Watched :
    (now idle_timeout transport_timeout : ℕ) (s : Stat) (p : Poll)
    → Watched p
    → Ensures
        (λ (r : Stat × Poll). Watched r.1)
        (handle_cleanup now idle_timeout transport_timeout s p)
unfolding handle_cleanup
handle_cleanup-Watched now idle_timeout transport_timeout s p w =
    Ensures-bind (cleanup-SameStates now idle_timeout transport_timeout p.manager)
      λ m same. done λ b c e. let (d, f, z) = same b c e in w b d f ∙ ap interest_of (sym z)
