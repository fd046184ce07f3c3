-- ===== src/Base/Bytes.antt =====
-- The integers and strings of the protocol: `setint`, `setchar`, `getint` and `getchar` of base.cc. A
-- write is the bytes that it stores, least significant first; a read takes the bytes from a pointer on,
-- and is undefined behaviour where there are not enough.
pub mod Roundtrip
use native.Mathlib.Nat.{pow-suc}
use stoxdb.Prelude.{
  ℕ, zero, suc, ◌+◌, ◌-◌, ◌*◌, ◌/◌, ◌%◌, ◌^◌, ◌≤◌, ◌<◌, List, [], ◌∷◌, ◌++◌, Bool, ltb, ◌≡◌, refl,
  sym, ap, ◌∙◌, if◌then◌else◌, length, take, drop, arith, length-append, length-take,
}
use stoxdb.Prelude.Int.{ℤ, pos, negsuc}
use stoxdb.Outcome.{Outcome, ok, ub, ◌>>=◌}
use stoxdb.Base.{Bytes}

-- The `w` bytes of a number.
unfoldable pub le_bytes : ℕ → ℕ → Bytes
le_bytes zero n = []
le_bytes (suc w) n = n % 256 ∷ le_bytes w (n / 256)

unfoldable pub from_le : Bytes → ℕ
from_le [] = 0
from_le (b ∷ bs) = b + 256 * from_le bs

-- `memcpy` of an integer of `w` bytes: the two's complement.
unfoldable pub to_word : ℕ → ℤ → ℕ
to_word w (pos n) = n % 256 ^ w
to_word w (negsuc n) = 256 ^ w - 1 - n % 256 ^ w

unfoldable pub of_word : ℕ → ℕ → ℤ
of_word w u = if ltb u (256 ^ w / 2) then pos u else negsuc (256 ^ w - 1 - u)

unfoldable pub setint : ℕ → ℤ → Bytes
unfolding le_bytes to_word
setint w v = le_bytes w (to_word w v)

-- `n` bytes from a pointer, and the pointer behind them.
unfoldable pub read_bytes : ℕ → Bytes → Outcome (Bytes × Bytes)
read_bytes zero p = ok ([], p)
read_bytes (suc n) [] = ub
read_bytes (suc n) (b ∷ p) = read_bytes n p >>= λ r. ok (b ∷ r.0, r.1)

unfoldable pub getint : ℕ → Bytes → Outcome (ℤ × Bytes)
unfolding from_le of_word read_bytes
getint w p = read_bytes w p >>= λ r. ok (of_word w (from_le r.0), r.1)

-- `setint1`, `setint2`, `setint4` and `setint8`, and the reads.
abbrev pub setint1 : ℤ → Bytes
setint1 = setint 1

abbrev pub setint2 : ℤ → Bytes
setint2 = setint 2

abbrev pub setint4 : ℤ → Bytes
setint4 = setint 4

abbrev pub setint8 : ℤ → Bytes
setint8 = setint 8

abbrev pub getint1 : Bytes → Outcome (ℤ × Bytes)
getint1 = getint 1

abbrev pub getint2 : Bytes → Outcome (ℤ × Bytes)
getint2 = getint 2

abbrev pub getint4 : Bytes → Outcome (ℤ × Bytes)
getint4 = getint 4

abbrev pub getint8 : Bytes → Outcome (ℤ × Bytes)
getint8 = getint 8

-- A string behind its length of `w` bytes; of a longer string a part is written.
unfoldable pub setchar : ℕ → Bytes → Bytes
setchar w input = le_bytes w (length input % 256 ^ w) ++ take (length input % 256 ^ w) input

unfoldable pub getchar : ℕ → Bytes → Outcome (Bytes × Bytes)
getchar w p = read_bytes w p >>= λ r. read_bytes (from_le r.0) r.1

abbrev pub setchar1 : Bytes → Bytes
setchar1 = setchar 1

abbrev pub setchar2 : Bytes → Bytes
setchar2 = setchar 2

abbrev pub getchar1 : Bytes → Outcome (Bytes × Bytes)
getchar1 = getchar 1

abbrev pub getchar2 : Bytes → Outcome (Bytes × Bytes)
getchar2 = getchar 2
