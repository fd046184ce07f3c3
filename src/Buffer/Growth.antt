-- ===== src/Buffer/Growth.antt =====
-- The loop and the result of `expand_buffer` in buffer.cc.
use native.Mathlib.Nat.{pow-suc}
use stoxdb.Prelude.{
  ℕ, zero, suc, ◌+◌, ◌*◌, ◌^◌, ◌≤◌, ◌<◌, true, ltb, ◌≡◌, refl, ◌⊎◌, inl, inr, Bool-cases, arith,
  ltb→lt, lt→ltb,
}
use stoxdb.Prelude.Int.{pos}
use stoxdb.Outcome.{ok}
use stoxdb.Buffer.{Buffer, int_limit, grow, grow_fuel, with_capacity, expand_buffer}

-- The capacity that the loop finds: large enough, no smaller than before, and below twice the need
-- where it is another one.
abbrev pub Fits : ℕ → ℕ → ℕ → Type 0
Fits capacity need c = (need ≤ c) × (capacity ≤ c) × ((c ≡ capacity) ⊎ (c < 2 * need))

Fits-double :
    (capacity need c : ℕ) → capacity < need → Fits (capacity * 2) need c → Fits capacity need c
Fits-double capacity need c h f =
    (f.0, omega arith, elim f.2 [ inl e ↦ inr (omega arith) | inr k ↦ inr k ])

double : (n capacity need : ℕ) → need ≤ capacity * 2 ^ suc n → need ≤ capacity * 2 * 2 ^ n
double n capacity need h =
    let h' : need ≤ capacity * (2 ^ n * 2) = rw (pow-suc 2 n) at h in omega arith

enough : (capacity need : ℕ) → 0 < capacity → need ≤ 2 ^ 30 → need ≤ capacity * 2 ^ grow_fuel
unfolding grow_fuel
enough capacity need p h = omega arith

with_capacity_lem :
    (bf : Buffer) (c : ℕ)
    → bf.capacity ≤ c
    → ok (with_capacity true bf c) ≡ ok (true, record bf { capacity = c })
with_capacity_lem bf c h = ground arith

grow-Fits :
    (n capacity need : ℕ)
    → 0 < capacity
    → need ≤ 2 ^ 30
    → need ≤ capacity * 2 ^ n
    → (c : ℕ) × (grow n capacity need ≡ ok c) × Fits capacity need c
unfolding grow
grow-Fits zero capacity need p h e = (capacity, ground arith, (omega arith, omega arith, inl refl))
grow-Fits (suc n) capacity need p h e = elim (Bool-cases (ltb capacity need)) [
  | inl lt ↦
      let less : capacity < need = ltb→lt capacity need lt in
      let (c, g, f) =
        grow-Fits n (capacity * 2) need (omega arith) h (omega (arith, double n capacity need e)) in
      (
        c,
        rw (lt, grow, lt→ltb (capacity * 2) int_limit (omega arith), g),
        Fits-double capacity need c less f,
      )
  | inr ge ↦ (capacity, rw (ge, grow), (ground arith, omega arith, inl refl))
]

-- With a positive capacity and a need of at most 2^30 bytes the loop of `expand_buffer` ends without
-- overflow. If the space is given, there is room for the bytes asked for behind the offset, the
-- capacity never falls and stays below twice the need where it changes, and the bytes, the offset and
-- the size stay as they were.
pub expand_buffer-room :
    (bf : Buffer) (n : ℕ)
    → 0 < bf.capacity
    → bf.offset + suc n ≤ 2 ^ 30
    → (bf' : Buffer) × (expand_buffer true bf (pos (suc n)) ≡ ok (true, bf'))
      × Fits bf.capacity (bf.offset + suc n) bf'.capacity
      × (bf'.contents ≡ bf.contents)
      × (bf'.offset ≡ bf.offset)
      × (bf'.size ≡ bf.size)
unfolding expand_buffer
expand_buffer-room bf n p h =
    let (c, g, f) =
      grow-Fits grow_fuel bf.capacity (bf.offset + suc n) p h (enough bf.capacity _ p h) in
    let small : ltb (bf.offset + suc n) int_limit ≡ true = lt→ltb _ _ (omega arith) in
    (record bf { capacity = c }, rw (small, g) (with_capacity_lem bf c f.1), f, refl, refl, refl)
