-- ===== src/Connection/Close.antt =====
-- `close_connection` of connection.cc: the slots and the heap behind it.
use stoxdb.Prelude.{
  ℕ, ◌+◌, ◌-◌, ◌<◌, false, ◌==◌, ◌≡◌, refl, sym, ap, ◌∙◌, ◌≢◌, inl, inr, if◌then◌else◌, length,
  get_elem?, set, take, none, some, arith, ==_iff, lt→ltb, Bool-cases, length-set, length-take,
  get_elem?-set_self, get_elem?-set_ne, subst,
}
use stoxdb.Outcome.{ok}
use stoxdb.Connection.{Connection, Manager, free_fd, store, load, last_slot, close_connection}
use stoxdb.Connection.Slots.{
  WellFormed, Closes, get_elem?-lt, lt-get_elem?, get_elem?-take, take-get_elem?, slots_unique,
  ==-false, store_self, store-ne,
}

-- The state after a close whose reads succeed.
abbrev removed : Manager → ℕ → ℕ → Connection → Connection → Manager
removed m a b c d = record m {
  connections = take (length m.connections - 1) (set m.connections c.id b);
  heap = store (store m.heap b (some (record d { id = c.id }))) a none;
  closed = free_fd c.fd m.closed;
}

pub load-some : (m : Manager) (a : ℕ) (c : Connection) → m.heap a ≡ some c → load m a ≡ ok c
unfolding load
load-some m a c e = rw (load, e)

last_slot-some :
    (m : Manager) (b : ℕ)
    → get_elem? m.connections (length m.connections - 1) ≡ some b
    → last_slot m ≡ ok b
unfolding last_slot
last_slot-some m b q = rw (last_slot, q)

close_connection-removed :
    (m : Manager) (a b : ℕ) (c d : Connection)
    → m.heap a ≡ some c
    → get_elem? m.connections (length m.connections - 1) ≡ some b
    → m.heap b ≡ some d
    → c.id < m.max_count
    → close_connection m a ≡ ok (removed m a b c d)
unfolding close_connection
close_connection-removed m a b c d e q f h =
    rw (load-some m a c e, last_slot-some m b q, load-some m b d f, lt→ltb c.id m.max_count h)

module _ (m : Manager) (i a b : ℕ) (c d : Connection) (w : WellFormed m)
    (p : get_elem? m.connections i ≡ some a) (e : m.heap a ≡ some c) (k : c.id ≡ i)
    (q : get_elem? m.connections (length m.connections - 1) ≡ some b) (f : m.heap b ≡ some d) where
  -- A slot before the last that holds a closed or a last address is the closed one.
  ne_closed : (j x : ℕ) → j ≢ i → get_elem? m.connections j ≡ some x → x ≢ a
  ne_closed j x n g s =
      n (slots_unique m j i a w (subst (λ y. get_elem? m.connections j ≡ some y) s g) p)

  ne_last : (j x : ℕ) → j < length m.connections - 1 → get_elem? m.connections j ≡ some x → x ≢ b
  ne_last j x l g s =
      let z : j ≡ length m.connections - 1 =
        slots_unique m j (length m.connections - 1) b w
          (subst (λ y. get_elem? m.connections j ≡ some y) s g) q in
      let no : ⊥ = omega (arith, z, l) in no

  last_ne : i < length m.connections - 1 → b ≢ a
  last_ne l s = ne_last i a l p (sym s)

  -- What the slots hold.
  removed-get_elem? :
      (j : ℕ)
      → j < length m.connections - 1
      → get_elem? (removed m a b c d).connections j
        ≡ (if j == i then some b else get_elem? m.connections j)
  removed-get_elem? j l =
      take-get_elem? (length m.connections - 1) j (set m.connections c.id b) l
      ∙ elim (Bool-cases (j == i)) [
        | inl t ↦
            let z : c.id ≡ j = omega (arith, (==_iff j i).0 t) in
            rw (t, z) (get_elem?-set_self m.connections j b (omega arith))
        | inr n ↦ rw n (get_elem?-set_ne m.connections b λ z. ==-false j i n (omega arith))
      ]

  removed-heap :
      (x : ℕ) (y : Connection)
      → x ≢ a
      → x ≢ b
      → m.heap x ≡ some y
      → (removed m a b c d).heap x ≡ some y
  removed-heap x y n o r =
      rw
        (
          store-ne (store m.heap b (some (record d { id = c.id }))) a none x n,
          store-ne m.heap b (some (record d { id = c.id })) x o,
        )
        r

  removed-heap_last : b ≢ a → (removed m a b c d).heap b ≡ some (record d { id = c.id })
  removed-heap_last n =
      rw
        (
          store-ne (store m.heap b (some (record d { id = c.id }))) a none b n,
          store_self m.heap b (some (record d { id = c.id })),
        )
        refl

  removed-slot :
      (j x : ℕ)
      → get_elem? (removed m a b c d).connections j ≡ some x
      → (y : Connection) × ((removed m a b c d).heap x ≡ some y) × (y.id ≡ j)
  removed-slot j x g =
      let (l, g') = get_elem?-take _ j (set m.connections c.id b) g in
      let h = sym (removed-get_elem? j l) ∙ g in
      elim (Bool-cases (j == i)) [
        | inl t ↦
            let z : j ≡ i = (==_iff j i).0 t in
            let e' : some b ≡ some x = rw t at h in
            let s : b ≡ x = cc in
            subst (λ v. (y : Connection) × ((removed m a b c d).heap v ≡ some y) × (y.id ≡ j)) s
              (record d { id = c.id }, removed-heap_last (last_ne (omega arith)), omega arith)
        | inr n ↦
            let h' : get_elem? m.connections j ≡ some x = rw n at h in
            let (y, r, o) = w.1 j x h' in
            (y, removed-heap x y (ne_closed j x (==-false j i n) h') (ne_last j x l h') r, o)
      ]

  removed-length : length (removed m a b c d).connections + 1 ≡ length m.connections
  removed-length = omega (
    arith,
    length-take (length m.connections - 1) (set m.connections c.id b),
    length-set m.connections c.id b,
    get_elem?-lt m.connections i p,
  )

  removed-others :
      (x : ℕ) (y : Connection)
      → (x == a) ≡ false
      → m.heap x ≡ some y
      → (n : ℕ) × ((removed m a b c d).heap x ≡ some (record y { id = n }))
  removed-others x y n r = elim (Bool-cases (x == b)) [
    | inl t ↦
        let z : x ≡ b = (==_iff x b).0 t in
        let o : b ≢ a = λ s. ==-false x a n (z ∙ s) in
        let r' : some d ≡ some y = sym f ∙ subst (λ v. m.heap v ≡ some y) z r in
        let s : d ≡ y = cc in
        (
          c.id,
          subst (λ v. (removed m a b c d).heap v ≡ some (record y { id = c.id })) (sym z)
              (subst (λ u. (removed m a b c d).heap b ≡ some (record u { id = c.id })) s
                (removed-heap_last o)),
        )
    | inr o ↦ (y.id, removed-heap x y (==-false x a n) (==-false x b o) r)
  ]

  removed-slots :
      (j : ℕ)
      → j < length (removed m a b c d).connections
      → get_elem? (removed m a b c d).connections j ≡ (
          if j == i
          then get_elem? m.connections (length (removed m a b c d).connections)
          else get_elem? m.connections j)
  removed-slots j l =
      let z : length (removed m a b c d).connections ≡ length m.connections - 1 =
        omega (arith, removed-length) in
      removed-get_elem? j (omega (arith, z, l))
      ∙ ap (λ o. if j == i then o else get_elem? m.connections j)
          (sym q ∙ ap (get_elem? m.connections) (sym z))

  removed-Closes : Closes m i a (removed m a b c d)
  removed-Closes = record {
    formed = (omega (arith, removed-length, w.0), removed-slot);
    fewer = removed-length;
    freed = store_self (store m.heap b (some (record d { id = c.id }))) a none;
    slots = removed-slots;
    others = removed-others;
  }

-- Closing the connection of a slot succeeds, keeps the numbers of the others equal to their slots,
-- moves the last one into the slot, frees the closed one, and changes nothing of another but its
-- number.
pub close_connection-Closes :
    (m : Manager) (i a : ℕ)
    → WellFormed m
    → get_elem? m.connections i ≡ some a
    → (m' : Manager) × (close_connection m a ≡ ok m') × Closes m i a m'
close_connection-Closes m i a w p =
    let (c, e, k) = w.1 i a p in
    let (b, q) =
      lt-get_elem? m.connections (length m.connections - 1)
        (omega (arith, get_elem?-lt m.connections i p)) in
    let (d, f, l) = w.1 _ b q in
    (
      removed m a b c d,
      close_connection-removed m a b c d e q f (omega (arith, w.0, get_elem?-lt m.connections i p)),
      removed-Closes m i a b c d w p e k q f,
    )
