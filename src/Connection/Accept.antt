-- ===== src/Connection/Accept.antt =====
-- The accept branch of `Server::start` and the slots of `connection_manager_t`.
use stoxdb.Prelude.{
  ℕ, zero, suc, ◌≤◌, ◌<◌, List, [], ◌∷◌, ◌++◌, Bool, leb, ◌≡◌, refl, sym, ◌∙◌, ◌≢◌, ◌⊎◌, inl, inr,
  length, get_elem?, none, some, arith, Bool-cases, Option-cases, length-append, subst,
}
use stoxdb.Buffer.{init_buffer}
use stoxdb.Connection.{
  Connection, Manager, State, store, create_connection, close_fd, accept_connection,
}
use stoxdb.Connection.Slots.{WellFormed, store_self, store-ne}

get_elem?-snoc :
    (xs : List ℕ) (x j : ℕ) {a : ℕ}
    → get_elem? (xs ++ x ∷ []) j ≡ some a
    → (get_elem? xs j ≡ some a) ⊎ ((j ≡ length xs) × (x ≡ a))
get_elem?-snoc [] x zero h = inr (refl, cc)
get_elem?-snoc [] x (suc j) h = absurd (cc)
get_elem?-snoc (y ∷ xs) x zero h = inl h
get_elem?-snoc (y ∷ xs) x (suc j) h = elim (get_elem?-snoc xs x j h) [
  | inl k ↦ inl k
  | inr k ↦ inr (omega (arith, k.0), k.1)
]

get_elem?-end : (xs : List ℕ) (x : ℕ) → get_elem? (xs ++ x ∷ []) (length xs) ≡ some x
get_elem?-end [] x = refl
get_elem?-end (y ∷ xs) x = get_elem?-end xs x

-- The manager with one connection more.
abbrev added : Manager → ℕ → Connection → Manager
added m a c = record m {
  connections = m.connections ++ a ∷ [];
  heap = store m.heap a (some (record c { id = length m.connections }));
}

added-WellFormed :
    (m : Manager) (a : ℕ) (c : Connection)
    → WellFormed m
    → m.heap a ≡ none
    → length m.connections < m.max_count
    → WellFormed (added m a c)
added-WellFormed m a c w e l = (
  omega (arith, length-append m.connections (a ∷ []), l),
  λ j b g. elim (get_elem?-snoc m.connections a j g) [
    | inl k ↦
        let (d, f, i) = w.1 j b k in
        let n : b ≢ a =
          λ s. let z : some d ≡ none = sym f ∙ subst (λ v. m.heap v ≡ none) (sym s) e in cc in
        (d, store-ne m.heap a (some (record c { id = length m.connections })) b n ∙ f, i)
    | inr k ↦ (
      record c { id = length m.connections },
      subst
          (λ v.
            store m.heap a (some (record c { id = length m.connections })) v
            ≡ some (record c { id = length m.connections }))
          k.1 (store_self m.heap a (some (record c { id = length m.connections }))),
      sym k.0,
    )
  ],
)

created :
    (alloc : Bool × Bool × Bool) (fd now : ℕ) (c : Connection)
    → create_connection alloc fd now ≡ some c
    → (c.fd ≡ fd) × (c.state ≡ State.idle)
unfolding create_connection init_buffer
created alloc fd now c h = ground arith

-- A new client keeps the numbers of the connections equal to their slots. Either its socket is closed
-- and nothing else changes, at the limit or without memory, or it gets the next slot, idle and with its
-- socket.
pub accept_connection-WellFormed :
    (alloc : Bool × Bool × Bool) (a fd now : ℕ) (m : Manager)
    → WellFormed m
    → m.heap a ≡ none
    → WellFormed (accept_connection alloc a fd now m)
      × (((accept_connection alloc a fd now m ≡ close_fd m fd)
            × ((m.max_count ≤ length m.connections) ⊎ (create_connection alloc fd now ≡ none)))
          ⊎ ((length m.connections < m.max_count)
              × ((accept_connection alloc a fd now m).connections ≡ m.connections ++ a ∷ [])
              × (c : Connection) × ((accept_connection alloc a fd now m).heap a ≡ some c)
              × (c.fd ≡ fd)
              × (c.state ≡ State.idle)))
unfolding accept_connection
accept_connection-WellFormed alloc a fd now m w e =
    elim (Bool-cases (leb m.max_count (length m.connections))) [
      | inl t ↦ rw (t, accept_connection) (w, inl (refl, inl (ground arith)))
      | inr f ↦ elim (Option-cases (create_connection alloc fd now)) [
        | inl n ↦ rw (f, n) (w, inl (refl, inr refl))
        | inr (c, s) ↦
            let l : length m.connections < m.max_count = ground arith in
            rw (f, s)
              (
                added-WellFormed m a c w e l,
                inr (
                  l,
                  refl,
                  record c { id = length m.connections },
                  store_self m.heap a (some (record c { id = length m.connections })),
                  (created alloc fd now c s).0,
                  (created alloc fd now c s).1,
                ),
              )
      ]
    ]
