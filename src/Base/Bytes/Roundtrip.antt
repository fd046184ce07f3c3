-- ===== src/Base/Bytes/Roundtrip.antt =====
-- `setint`, `getint`, `setchar` and `getchar` of base.cc, a write before a read.
use native.Mathlib.Nat.{pow-suc, mod-eq_of_lt}
use stoxdb.Prelude.{
  ℕ, zero, suc, ◌*◌, ◌/◌, ◌^◌, ◌<◌, [], ◌∷◌, ◌++◌, ◌≡◌, refl, subst, ap, length, take, arith,
  append_assoc,
}
use stoxdb.Prelude.Int.{ℤ, pos, negsuc}
use stoxdb.Outcome.{ok}
use stoxdb.Base.{Bytes}
use stoxdb.Base.Bytes.{
  le_bytes, from_le, to_word, of_word, setint, read_bytes, getint, setchar, getchar,
}

pub read_bytes-append : (xs rest : Bytes) → read_bytes (length xs) (xs ++ rest) ≡ ok (xs, rest)
unfolding read_bytes
read_bytes-append [] rest = refl
read_bytes-append (x ∷ xs) rest = rw (read_bytes-append xs rest)

pub length-le_bytes : (w n : ℕ) → length (le_bytes w n) ≡ w
unfolding le_bytes
length-le_bytes zero n = refl
length-le_bytes (suc w) n = ap suc (length-le_bytes w (n / 256))

pub length-setint : (w : ℕ) (v : ℤ) → length (setint w v) ≡ w
unfolding setint
length-setint w v = length-le_bytes w _

from_le-le_bytes : (w n : ℕ) → n < 256 ^ w → from_le (le_bytes w n) ≡ n
unfolding from_le le_bytes
from_le-le_bytes zero n h = omega arith
from_le-le_bytes (suc w) n h =
    let below : n / 256 < 256 ^ w = omega (arith, pow-suc 256 w) in
    omega (arith, from_le-le_bytes w (n / 256) below)

pub take-length : (xs : Bytes) → take (length xs) xs ≡ xs
take-length [] = refl
take-length (x ∷ xs) = ap (◌∷◌ x) (take-length xs)

-- From -h up to h - 1.
abbrev pub InRange : ℕ → ℤ → Type 0
InRange h (pos n) = n < h
InRange h (negsuc n) = n < h

read_le : (w n : ℕ) (rest : Bytes) → read_bytes w (le_bytes w n ++ rest) ≡ ok (le_bytes w n, rest)
read_le w n rest =
    subst (λ k. read_bytes k (le_bytes w n ++ rest) ≡ ok (le_bytes w n, rest)) (length-le_bytes w n)
      (read_bytes-append (le_bytes w n) rest)

to_word-lt : (w h : ℕ) (v : ℤ) → 256 ^ w ≡ 2 * h → InRange h v → to_word w v < 256 ^ w
unfolding to_word
to_word-lt w h (pos n) e r =
    let small : n < 256 ^ w = omega (arith, e) in rw (mod-eq_of_lt small) small
to_word-lt w h (negsuc n) e r =
    let small : n < 256 ^ w = omega (arith, e) in rw (mod-eq_of_lt small) (omega (arith, e))

of_word-to_word : (w h : ℕ) (v : ℤ) → 256 ^ w ≡ 2 * h → InRange h v → of_word w (to_word w v) ≡ v
unfolding of_word to_word
of_word-to_word w h (pos n) e r =
    let small : n < 256 ^ w = omega (arith, e) in rw (mod-eq_of_lt small, e) (ground arith)
of_word-to_word w h (negsuc n) e r =
    let small : n < 256 ^ w = omega (arith, e) in rw (mod-eq_of_lt small, e) (ground arith)

-- An integer of `w` bytes in range, written and read back, is itself, and the rest of the buffer
-- follows: so for the four widths of the protocol.
pub getint-setint :
    (w h : ℕ) (v : ℤ) (rest : Bytes)
    → 256 ^ w ≡ 2 * h
    → InRange h v
    → getint w (setint w v ++ rest) ≡ ok (v, rest)
unfolding getint setint
getint-setint w h v rest e r = rw (
  read_le w (to_word w v) rest,
  from_le-le_bytes w (to_word w v) (to_word-lt w h v e r),
  of_word-to_word w h v e r,
)

-- A string that is short enough for its length of `w` bytes, written and read back, is itself.
pub getchar-setchar :
    (w : ℕ) (s rest : Bytes) → length s < 256 ^ w → getchar w (setchar w s ++ rest) ≡ ok (s, rest)
unfolding getchar setchar
getchar-setchar w s rest h = rw (
  mod-eq_of_lt h,
  take-length s,
  append_assoc,
  read_le w (length s) (s ++ rest),
  from_le-le_bytes w (length s) h,
  read_bytes-append s rest,
)
