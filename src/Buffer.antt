-- ===== src/Buffer.antt =====
-- buffer.h and buffer.cc. `data` is the bytes that were stored from the start of the space on; an `int`
-- that overflows is undefined behaviour. What `malloc` and `realloc` answer is an argument.
pub mod Growth
use stoxdb.Prelude.{ℕ, zero, suc, ◌+◌, ◌*◌, ◌^◌, List, [], Bool, true, false, ltb, if◌then◌else◌}
use stoxdb.Prelude.Int.{ℤ, pos, negsuc}
use stoxdb.Outcome.{Outcome, ok, ub, hang, ◌>>=◌}
use stoxdb.Base.{Bytes}

-- `buffer_t`.
pub record Buffer : Type 0 where
  pub contents : Bytes
  pub capacity : ℕ
  pub offset : ℕ
  pub size : ℕ

abbrev pub int_limit : ℕ
int_limit = 2 ^ 31

-- `malloc` succeeded or not.
unfoldable pub init_buffer : Bool → ℕ → Bool × Buffer
init_buffer alloc size =
    (alloc, record { contents = []; capacity = if alloc then size else 0; offset = 0; size = 0 })

unfoldable pub free_buffer : Buffer → Bool × Buffer
free_buffer bf = (true, record bf { capacity = 0 })

-- `while (capacity < need) capacity = capacity * 2`, on fuel.
unfoldable pub grow : ℕ → ℕ → ℕ → Outcome ℕ
grow zero capacity need = if ltb capacity need then hang else ok capacity
grow (suc n) capacity need = elim (ltb capacity need) [
  | true ↦ elim (ltb (capacity * 2) int_limit) [ true ↦ grow n (capacity * 2) need | false ↦ ub ]
  | false ↦ ok capacity
]

-- More rounds than an `int` has bits: a positive capacity overflows before.
unfoldable pub grow_fuel : ℕ
grow_fuel = 32

abbrev pub with_capacity : Bool → Buffer → ℕ → Bool × Buffer
with_capacity alloc bf capacity =
    if ltb bf.capacity capacity
    then (if alloc then (true, record bf { capacity = capacity }) else (false, bf))
    else (true, bf)

unfoldable pub expand_buffer : Bool → Buffer → ℤ → Outcome (Bool × Buffer)
expand_buffer alloc bf (negsuc n) = ok (true, bf)
expand_buffer alloc bf (pos zero) = ok (true, bf)
expand_buffer alloc bf (pos (suc n)) =
    if ltb (bf.offset + suc n) int_limit
    then (grow grow_fuel bf.capacity (bf.offset + suc n) >>= λ c. ok (with_capacity alloc bf c))
    else ub
