-- ===== src/Connection/Cleanup.antt =====
-- `cleanup_idle_connections` of connection.cc: what is left in the slots.
use stoxdb.Prelude.{
  ℕ, zero, suc, ◌+◌, ◌≤◌, ◌<◌, true, false, ◌==◌, ◌≡◌, sym, ◌∙◌, ◌≢◌, inl, inr, length, get_elem?,
  none, some, arith, List, [], ◌∷◌, ltb-cases, le→ltb, Bool-cases, Option-cases, subst,
}
use stoxdb.Outcome.{ok}
use stoxdb.Connection.{
  Connection, Manager, close_connection, is_expired, cleanup_step, cleanup_loop,
  cleanup_idle_connections,
}
use stoxdb.Connection.Close.{load-some, close_connection-Closes}
use stoxdb.Connection.Slots.{WellFormed, Closes, get_elem?-lt, slots_unique, ==-self, ==-ne}

none-length : (xs : List ℕ) (i : ℕ) → get_elem? xs i ≡ none → length xs ≤ i
none-length [] i h = omega arith
none-length (x ∷ xs) zero h = absurd (cc)
none-length (x ∷ xs) (suc i) h = omega (arith, none-length xs i h)

module _ (now idle_timeout recv_timeout : ℕ) where
  -- The connections of the slots below `n` are not expired.
  abbrev pub FreshBelow : ℕ → Manager → Type 0
  FreshBelow n m =
      (j b : ℕ) (c : Connection)
      → j < n
      → get_elem? m.connections j ≡ some b
      → m.heap b ≡ some c
      → is_expired now idle_timeout recv_timeout c ≡ false

  -- A connection that is not expired is still in a slot, and only its number may be another.
  abbrev pub Keeps : Manager → Manager → Type 0
  Keeps m m' =
      (j b : ℕ) (c : Connection)
      → get_elem? m.connections j ≡ some b
      → m.heap b ≡ some c
      → is_expired now idle_timeout recv_timeout c ≡ false
      → (j' k : ℕ) × (get_elem? m'.connections j' ≡ some b)
        × (m'.heap b ≡ some (record c { id = k }))

  Keeps-trans : (m m' m'' : Manager) → Keeps m m' → Keeps m' m'' → Keeps m m''
  unfolding is_expired
  Keeps-trans m m' m'' h h' j b c g e x =
      let (j', k, g', e') = h j b c g e x in
      let (j'', k', g'', e'') = h' j' b (record c { id = k }) g' e' x in (j'', k', g'', e'')

  module _ (m : Manager) (i a : ℕ) (c : Connection) (w : WellFormed m)
      (p : get_elem? m.connections i ≡ some a) (e : m.heap a ≡ some c) (m' : Manager)
      (r : Closes m i a m') where
    close-FreshBelow : FreshBelow i m → FreshBelow i m'
    unfolding is_expired
    close-FreshBelow h j b d l g f =
        let n : (j == i) ≡ false = ==-ne j i (λ z. let no : ⊥ = omega (arith, z, l) in no) in
        let g' : get_elem? m.connections j ≡ some b =
          (rw n at (sym (r.slots j (get_elem?-lt m'.connections j g)) ∙ g)) in
        let (y, o, s) = w.1 j b g' in
        let b_ne : (b == a) ≡ false = ==-ne b a (λ z.
          let q = slots_unique m j i a w (subst (λ v. get_elem? m.connections j ≡ some v) z g') p in
          let no : ⊥ = omega (arith, q, l) in no) in
        let (k, f') = r.others b y b_ne o in
        let s : some d ≡ some (record y { id = k }) = sym f ∙ f' in
        let t : d ≡ record y { id = k } = cc in
        subst (λ v. is_expired now idle_timeout recv_timeout v ≡ false) (sym t) (h j b y l g' o)

    still :
        {j : ℕ}
        → j ≢ i
        → length m'.connections ≡ j
        → i < length m.connections
        → i < length m'.connections
    still n z l = omega (arith, n, z, l, r.fewer)

    close-Keeps : is_expired now idle_timeout recv_timeout c ≡ true → Keeps m m'
    close-Keeps x j b d g f y =
        let b_ne : b ≢ a = λ z.
          let s : some d ≡ some c = sym f ∙ subst (λ v. m.heap v ≡ some c) (sym z) e in
          let t : d ≡ c = cc in
          let u : true ≡ false =
            sym x ∙ subst (λ v. is_expired now idle_timeout recv_timeout v ≡ false) t y in
          cc in
        let (k, f') = r.others b d (==-ne b a b_ne) f in
        let j_ne : j ≢ i = λ z.
          let s : some b ≡ some a =
            sym g ∙ subst (λ v. get_elem? m.connections v ≡ some a) (sym z) p in
          let t : b ≡ a = cc in b_ne t in
        elim (ltb-cases j (length m'.connections)) [
          | inl l ↦ (j, k, r.slots j l ∙ rw (==-ne j i j_ne) g, f')
          | inr n ↦
              let z : length m'.connections ≡ j =
                omega (arith, n, r.fewer, get_elem?-lt m.connections j g) in
              (
                i,
                k,
                r.slots i (still j_ne z (get_elem?-lt m.connections i p)) ∙ rw (==-self i, z) g,
                f',
              )
        ]

  one_more :
      (m : Manager) (i a : ℕ) (c : Connection)
      → get_elem? m.connections i ≡ some a
      → m.heap a ≡ some c
      → FreshBelow i m
      → is_expired now idle_timeout recv_timeout c ≡ false
      → FreshBelow (suc i) m
  one_more m i a c p e h x j b d l g f = elim (ltb-cases j i) [
    | inl k ↦ h j b d k g f
    | inr k ↦
        let z : j ≡ i = omega (arith, k, l) in
        let s : some b ≡ some a =
          sym g ∙ subst (λ v. get_elem? m.connections v ≡ some a) (sym z) p in
        let t : b ≡ a = cc in
        let u : some d ≡ some c = sym f ∙ subst (λ v. m.heap v ≡ some c) (sym t) e in
        let v : d ≡ c = cc in
        subst (λ y. is_expired now idle_timeout recv_timeout y ≡ false) (sym v) x
  ]

  step-closes :
      (m : Manager) (a : ℕ) (m' : Manager) (c : Connection)
      → m.heap a ≡ some c
      → is_expired now idle_timeout recv_timeout c ≡ true
      → close_connection m a ≡ ok m'
      → cleanup_step now idle_timeout recv_timeout m a ≡ ok (some m')
  unfolding cleanup_step
  step-closes m a m' c e x f = rw (load-some m a c e, x, f)

  step-keeps :
      (m : Manager) (a : ℕ) (c : Connection)
      → m.heap a ≡ some c
      → is_expired now idle_timeout recv_timeout c ≡ false
      → cleanup_step now idle_timeout recv_timeout m a ≡ ok none
  unfolding cleanup_step
  step-keeps m a c e x = rw (load-some m a c e, x)

  cleanup_loop-Keeps :
      (n i : ℕ) (m : Manager)
      → WellFormed m
      → length m.connections ≤ i + n
      → FreshBelow i m
      → (m' : Manager) × (cleanup_loop now idle_timeout recv_timeout n i m ≡ ok m')
        × WellFormed m'
        × FreshBelow (length m'.connections) m'
        × Keeps m m'
  unfolding cleanup_loop
  cleanup_loop-Keeps zero i m w l h = (
    m,
    rw (le→ltb i (length m.connections) (omega arith)),
    w,
    (λ j b c k g e. h j b c (omega arith) g e),
    λ j b c g e x. (j, c.id, g, e),
  )
  cleanup_loop-Keeps (suc n) i m w l h = elim (Option-cases (get_elem? m.connections i)) [
    | inl p ↦ (
      m,
      rw (cleanup_loop, p),
      w,
      (λ j b c k g e. h j b c (omega (arith, k, none-length m.connections i p)) g e),
      λ j b c g e x. (j, c.id, g, e),
    )
    | inr (a, p) ↦
        let (c, e, k) = w.1 i a p in
        elim (Bool-cases (is_expired now idle_timeout recv_timeout c)) [
          | inl x ↦
              let (m1, f, r) = close_connection-Closes m i a w p in
              let (m', q, w', g, t) =
                cleanup_loop-Keeps n i m1 r.formed (omega (arith, l, r.fewer))
                  (close-FreshBelow m i a c w p e m1 r h) in
              (
                m',
                rw (cleanup_loop, p, step-closes m a m1 c e x f) q,
                w',
                g,
                Keeps-trans m m1 m' (close-Keeps m i a c w p e m1 r x) t,
              )
          | inr x ↦
              let (m', q, w', g, t) =
                cleanup_loop-Keeps n (suc i) m w (omega arith) (one_more m i a c p e h x) in
              (m', rw (cleanup_loop, p, step-keeps m a c e x) q, w', g, t)
        ]
  ]

-- From a manager whose numbers are the slots, `cleanup_idle_connections` ends, and keeps them so. What
-- is left in a slot is not expired, and each connection that is not expired is left, unchanged but for
-- its number.
pub cleanup_idle_connections-Keeps :
    (now idle_timeout recv_timeout : ℕ) (m : Manager)
    → WellFormed m
    → (m' : Manager) × (cleanup_idle_connections now idle_timeout recv_timeout m ≡ ok m')
      × WellFormed m'
      × FreshBelow now idle_timeout recv_timeout (length m'.connections) m'
      × Keeps now idle_timeout recv_timeout m m'
unfolding cleanup_idle_connections
cleanup_idle_connections-Keeps now idle_timeout recv_timeout m w =
    cleanup_loop-Keeps now idle_timeout recv_timeout (length m.connections) 0 m w (omega arith)
      (λ j b c l g e. elim l [ ])
