-- ===== src/Connection/Slots.antt =====
-- The slots of `connection_manager_t`: its well-formedness, and what a close leaves.
use stoxdb.Prelude.{
  ℕ, zero, suc, ◌+◌, ◌≤◌, ◌<◌, List, [], ◌∷◌, true, false, ◌==◌, ◌≡◌, refl, ◌≢◌, if◌then◌else◌,
  length, get_elem?, take, Option, none, some, arith,
}
use stoxdb.Connection.{Connection, Manager, store}

-- Each slot below `count` holds a live connection with the slot's number, and there are no more slots
-- than `max_count`.
abbrev pub WellFormed : Manager → Type 0
WellFormed m =
    (length m.connections ≤ m.max_count)
    × ((i a : ℕ)
        → get_elem? m.connections i ≡ some a
        → (c : Connection) × (m.heap a ≡ some c) × (c.id ≡ i))

pub get_elem?-lt :
    {A : Type 0} (xs : List A) (i : ℕ) {a : A} → get_elem? xs i ≡ some a → i < length xs
get_elem?-lt [] i h = absurd (cc)
get_elem?-lt (x ∷ xs) zero h = omega arith
get_elem?-lt (x ∷ xs) (suc i) h = omega (arith, get_elem?-lt xs i h)

pub lt-get_elem? :
    {A : Type 0} (xs : List A) (i : ℕ) → i < length xs → (a : A) × (get_elem? xs i ≡ some a)
lt-get_elem? [] i h = elim h [ ]
lt-get_elem? (x ∷ xs) zero h = (x, refl)
lt-get_elem? (x ∷ xs) (suc i) h = lt-get_elem? xs i (omega arith)

pub get_elem?-take :
    {A : Type 0} (n i : ℕ) (xs : List A) {a : A}
    → get_elem? (take n xs) i ≡ some a
    → (i < n) × (get_elem? xs i ≡ some a)
get_elem?-take zero i xs h = absurd (cc)
get_elem?-take (suc n) i [] h = absurd (cc)
get_elem?-take (suc n) zero (x ∷ xs) h = (omega arith, h)
get_elem?-take (suc n) (suc i) (x ∷ xs) h =
    let r = get_elem?-take n i xs h in (omega (arith, r.0), r.1)

pub take-get_elem? :
    {A : Type 0} (n i : ℕ) (xs : List A) → i < n → get_elem? (take n xs) i ≡ get_elem? xs i
take-get_elem? zero i xs h = elim h [ ]
take-get_elem? (suc n) i [] h = refl
take-get_elem? (suc n) zero (x ∷ xs) h = refl
take-get_elem? (suc n) (suc i) (x ∷ xs) h = take-get_elem? n i xs (omega arith)

-- Two slots with one address are one slot.
pub slots_unique :
    (m : Manager) (i j a : ℕ)
    → WellFormed m
    → get_elem? m.connections i ≡ some a
    → get_elem? m.connections j ≡ some a
    → i ≡ j
slots_unique m i j a w p q = let (c, e, k) = w.1 i a p in let (d, f, l) = w.1 j a q in cc

-- What a manager looks like after the connection in slot `i`, at address `a`, is closed.
pub record Closes (m : Manager) (i a : ℕ) (m' : Manager) : Type 0 where
  pub formed : WellFormed m'
  pub fewer : length m'.connections + 1 ≡ length m.connections
  pub freed : m'.heap a ≡ none
  -- The slot holds what was the last one, the others are as they were.
  pub slots :
      (j : ℕ)
      → j < length m'.connections
      → get_elem? m'.connections j ≡ (
          if j == i
          then get_elem? m.connections (length m'.connections)
          else get_elem? m.connections j)
  -- The other connections are as they were, but for the number.
  pub others :
      (b : ℕ) (c : Connection)
      → (b == a) ≡ false
      → m.heap b ≡ some c
      → (k : ℕ) × (m'.heap b ≡ some (record c { id = k }))

pub ==-self : (a : ℕ) → (a == a) ≡ true
==-self a = ground arith

pub ==-ne : (a b : ℕ) → a ≢ b → (a == b) ≡ false
==-ne a b h = ground arith

pub ==-false : (a b : ℕ) → (a == b) ≡ false → a ≢ b
==-false a b h e = ground arith

pub store_self : (h : ℕ → Option Connection) (a : ℕ) (c : Option Connection) → store h a c a ≡ c
store_self h a c = rw (==-self a)

pub store-ne :
    (h : ℕ → Option Connection) (a : ℕ) (c : Option Connection) (b : ℕ)
    → b ≢ a
    → store h a c b ≡ h b
store-ne h a c b k = rw (==-ne b a k)
