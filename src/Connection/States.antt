-- ===== src/Connection/States.antt =====
-- connection.cc: the states of the connections that are left when one is closed, or some are cleaned up.
use stoxdb.Prelude.{
  ℕ, zero, suc, ◌==◌, ◌≡◌, refl, ◌∙◌, length, get_elem?, ltb, none, some, Option, some-inj, ap,
  subst, sym, ==_iff, ◌≢◌, Option-cases, inl, inr,
}
use stoxdb.Outcome.{
  Outcome, ok, ub, Ensures, done, crashed, looped, Ensures-bind, Ensures-map, Ensures-trivial,
  if_both,
}
use stoxdb.Connection.Slots.{store_self}
use stoxdb.Connection.{
  Connection, Heap, Manager, load, last_slot, store, is_expired, close_connection, cleanup_step,
  cleanup_loop, cleanup_idle_connections,
}

-- Each connection of the second heap stands in the first one, in the same state.
abbrev pub SameStates : Heap → Heap → Type 0
SameStates h h' =
    (b : ℕ) (c' : Connection)
    → h' b ≡ some c'
    → (c : Connection) × (h b ≡ some c) × (c'.state ≡ c.state)

SameStates-trans : (h h' h'' : Heap) → SameStates h h' → SameStates h' h'' → SameStates h h''
SameStates-trans h h' h'' r q b c e =
    let (c', e', s') = q b c e in let (d, f, s) = r b c' e' in (d, f, s' ∙ s)

pub load-Found : (m : Manager) (a : ℕ) → Ensures (λ c. m.heap a ≡ some c) (load m a)
unfolding load
load-Found m a = found (m.heap a)
  where
    found :
        (o : Option Connection) → Ensures (λ c. o ≡ some c) (elim o [ none ↦ ub | some c ↦ ok c ])
    found none = crashed
    found (some c) = done refl

-- What a closed connection leaves: nothing where it stood, and the others in their states.
abbrev pub Leaves : Heap → ℕ → Manager → Type 0
Leaves h a m' = ((c : Connection) → m'.heap a ≢ some c) × SameStates h m'.heap

pub close_connection-Leaves :
    (m : Manager) (a : ℕ) → Ensures (Leaves m.heap a) (close_connection m a)
unfolding close_connection
close_connection-Leaves m a = Ensures-bind (Ensures-trivial (load m a)) λ conn u.
    Ensures-bind (Ensures-trivial (last_slot m)) λ b u'. Ensures-bind (load-Found m b) λ last e.
      if_both (Ensures (Leaves m.heap a)) (ltb conn.id m.max_count)
        (λ _. done (
          λ c z.
              let q = store_self (store m.heap b (some (record last { id = conn.id }))) a none in
              cc,
          λ x c.
              if_both
                (λ o. o ≡ some c → (d : Connection) × (m.heap x ≡ some d) × (c.state ≡ d.state))
                (x == a) (λ _ z. absurd (cc))
                λ _.
                  if_both
                    (λ o. o ≡ some c → (d : Connection) × (m.heap x ≡ some d) × (c.state ≡ d.state))
                    (x == b)
                    (λ q z. (
                      last,
                      subst (λ v. m.heap v ≡ some last) (sym ((==_iff x b).0 q)) e,
                      ap (λ d. d.state) (sym (some-inj z)),
                    ))
                    λ _ z. (c, z, refl),
        ))
        λ _. crashed

module _ (now idle_timeout recv_timeout : ℕ) where
  -- What a round leaves, if it closes a connection.
  abbrev Cleaned : Manager → Option Manager → Type 0
  Cleaned m none = Unit {0}
  Cleaned m (some m') = SameStates m.heap m'.heap

  Cleaned-next :
      (m : Manager) (r : Option Manager) {P : Manager → Type 0} {x : Outcome Manager}
      {y : Manager → Outcome Manager}
      → Cleaned m r
      → Ensures P x
      → ((m' : Manager) → SameStates m.heap m'.heap → Ensures P (y m'))
      → Ensures P (elim r [ none ↦ x | some m' ↦ y m' ])
  Cleaned-next m none z hx hy = hx
  Cleaned-next m (some m') z hx hy = hy m' z

  cleanup_step-Cleaned :
      (m : Manager) (a : ℕ) → Ensures (Cleaned m) (cleanup_step now idle_timeout recv_timeout m a)
  unfolding cleanup_step
  cleanup_step-Cleaned m a = Ensures-bind (Ensures-trivial (load m a)) λ c u.
      if_both (Ensures (Cleaned m)) (is_expired now idle_timeout recv_timeout c)
        (λ _. Ensures-bind (close_connection-Leaves m a) λ m' z. done {a = some m'} z.1)
        λ _. done {a = none} tt

  cleanup_loop-SameStates :
      (n i : ℕ) (m : Manager)
      → Ensures (λ m'. SameStates m.heap m'.heap) (cleanup_loop now idle_timeout recv_timeout n i m)
  unfolding cleanup_loop
  cleanup_loop-SameStates zero i m =
      if_both (Ensures λ m'. SameStates m.heap m'.heap) (ltb i (length m.connections)) (λ _. looped)
        λ _. done λ b c e. (c, e, refl)
  cleanup_loop-SameStates (suc n) i m = elim (Option-cases (get_elem? m.connections i)) [
    | inl e ↦ rw (cleanup_loop, e) (done λ b c z. (c, z, refl))
    | inr (a, e) ↦
        rw (cleanup_loop, e)
          (Ensures-bind (cleanup_step-Cleaned m a) λ r. λ z.
            Cleaned-next m r z (cleanup_loop-SameStates n (suc i) m) λ m' y.
              Ensures-map (cleanup_loop-SameStates n i m')
                λ m'' q. SameStates-trans m.heap m'.heap m''.heap y q)
  ]

  pub cleanup-SameStates :
      (m : Manager)
      → Ensures
          (λ m'. SameStates m.heap m'.heap)
          (cleanup_idle_connections now idle_timeout recv_timeout m)
  unfolding cleanup_idle_connections
  cleanup-SameStates m = cleanup_loop-SameStates (length m.connections) 0 m
