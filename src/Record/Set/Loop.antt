-- ===== src/Record/Set/Loop.antt =====
-- record.cc: the ends of the loop of `setone`, and lists of fields.
use stoxdb.Prelude.{
  ℕ, zero, suc, ◌+◌, ◌-◌, ◌≤◌, ◌<◌, List, [], ◌∷◌, ◌++◌, true, false, ltb, ◌≡◌, ap, length, take,
  drop, length-take, length-drop, get_elem?, arith, length-append, none, some,
}
use stoxdb.Prelude.Int.{pos}
use stoxdb.Outcome.{ok, ub}
use stoxdb.Base.{Bytes}
use stoxdb.Meta.{Field}
use stoxdb.Record.{field_at}
use stoxdb.Record.Store.{is_before, Progress, set_loop}

-- Bytes of a record, replaced.
unfoldable pub replace : ℕ → Bytes → Bytes → Bytes
replace offset bs value = take offset value ++ (bs ++ drop (offset + length bs) value)

pub length-replace :
    (offset : ℕ) (bs value : Bytes)
    → offset + length bs ≤ length value
    → length (replace offset bs value) ≡ length value
unfolding replace
length-replace offset bs value h = omega (
  arith,
  length-append (take offset value) (bs ++ drop (offset + length bs) value),
  length-append bs (drop (offset + length bs) value),
  length-drop (offset + length bs) value,
  length-take offset value,
)

pub get_elem?-below :
    {A : Type 0} (xs : List A) (i : ℕ) {x : A} → get_elem? xs i ≡ some x → ltb (length xs) i ≡ false
get_elem?-below [] i e = absurd (cc)
get_elem?-below (x ∷ xs) zero e = ground arith
get_elem?-below (x ∷ xs) (suc i) e = ground (arith, get_elem?-below xs i e)

pub field_at-some :
    {F : Type 0} (fields : List (Field F)) (i : ℕ) {f : Field F}
    → get_elem? fields i ≡ some f
    → field_at fields i ≡ ok f
field_at-some fields i e = ap (λ o. elim o [ none ↦ ub | some f ↦ ok f ]) e

pub is_before-end :
    (byte rest : Bytes) → is_before byte rest (pos (length byte - length rest)) ≡ false
unfolding is_before
is_before-end byte rest = ground arith

pub is_before-more :
    (byte p rest : Bytes)
    → length rest < length p
    → length p ≤ length byte
    → is_before byte p (pos (length byte - length rest)) ≡ true
unfolding is_before
is_before-more byte p rest h k = ground arith

pub set_loop-end :
    {F : Type 0} (fields : List (Field F)) (byte : Bytes) (s : Progress) (n : ℕ)
    → set_loop fields (pos (length byte - length s.rest)) byte n s ≡ ok (true, s)
unfolding set_loop
set_loop-end fields byte s zero = rw (set_loop, is_before-end byte s.rest)
set_loop-end fields byte s (suc n) = rw (set_loop, is_before-end byte s.rest)
