-- ===== src/Record/Set/Lengths.antt =====
-- record.cc: the length of a record and the sizes of a map through the writes of one field.
use stoxdb.Prelude.{
  ℕ, zero, suc, ◌+◌, List, [], ◌∷◌, ◌++◌, Bool, true, false, ltb, ◌≡◌, refl, ◌∙◌, length, take,
  drop, length-take, length-drop, length-append, arith, Option, none, some, subst,
}
use stoxdb.Prelude.Int.{ℤ, pos, negsuc}
use stoxdb.Outcome.{
  Outcome, ok, hang, ◌>>=◌, Ensures, done, crashed, looped, Ensures-bind, Ensures-map,
  Ensures-trivial, if_both,
}
use stoxdb.Base.{Bytes, same}
use stoxdb.Base.Bytes.{read_bytes, getint2}
use stoxdb.Meta.{Field}
use stoxdb.Record.{field_at}
use stoxdb.Record.Store.{
  Data, find_record, put_record, write_at, copy_bytes, Progress, set_value, set_field, set_loop,
  is_before, insert_ids, value_size,
}

-- Each record has a size.
abbrev pub Sized : ℕ → Data → Type 0
Sized n [] = Unit {0}
Sized n ((k, v) ∷ m) = (length v ≡ n) × Sized n m

-- A record of the same length.
abbrev pub Same : Bytes → Bytes → Type 0
Same value v = length v ≡ length value

pub find_record-Sized :
    (n : ℕ) (key : Bytes) (m : Data) {v : Bytes}
    → Sized n m
    → find_record key m ≡ some v
    → length v ≡ n
unfolding find_record
find_record-Sized n key [] h = λ e. absurd (cc)
find_record-Sized n key ((k, w) ∷ m) {v} h =
    if_both (λ o. o ≡ some v → length v ≡ n) (same k key)
      (λ _ e.
        subst (λ (o : Option Bytes). elim o [ none ↦ Unit {0} | some x ↦ length x ≡ n ]) e h.0)
      (λ _ e. find_record-Sized n key m h.1 e)

pub put_record-Sized :
    (n : ℕ) (key v : Bytes) (m : Data) → Sized n m → length v ≡ n → Sized n (put_record key v m)
unfolding put_record
put_record-Sized n key v [] h e = (e, tt)
put_record-Sized n key v ((k, w) ∷ m) h e =
    if_both (Sized n) (same k key) (λ _. (e, h.1)) (λ _. (h.0, put_record-Sized n key v m h.1 e))

write_at-Same : (offset : ℕ) (bs value : Bytes) → Ensures (Same value) (write_at offset bs value)
unfolding write_at
write_at-Same offset bs value =
    if_both (Ensures (Same value)) (ltb (length value) (offset + length bs)) (λ _. crashed)
      λ e. done (
        ground (
          arith,
          e,
          length-append (take offset value) (bs ++ drop (offset + length bs) value),
          length-append bs (drop (offset + length bs) value),
          length-drop (offset + length bs) value,
          length-take offset value,
        ))

pub copy_bytes-Same :
    (n : ℕ) (p : Bytes) (offset : ℕ) (value : Bytes)
    → Ensures (λ (r : Bytes × Bytes). Same value r.1) (copy_bytes n p offset value)
unfolding copy_bytes
copy_bytes-Same n p offset value =
    Ensures-bind (Ensures-trivial (read_bytes n p))
      λ r _. Ensures-bind (write_at-Same offset r.0 value) λ v h. done h

module _ {F : Type 0} (fields : List (Field F)) where
  -- An update that goes on keeps the length of the record.
  abbrev Next : Progress → Option Progress → Type 0
  Next s none = Unit {0}
  Next s (some t) = Same s.value t.value

  set_value-Next : (s : Progress) (r : ℤ × Bytes) → Ensures (Next s) (set_value fields s r)
  unfolding set_value
  set_value-Next s (negsuc i, p) = done tt
  set_value-Next s (pos i, p) =
      elim (ltb (length fields) i)
        as (λ (b : Bool). Ensures (Next s) (elim b [
          | true ↦ ok none
          | false ↦ field_at fields i >>= λ f. value_size f p >>= λ sz.
              copy_bytes sz p f.offset s.value >>= λ c.
              ok (some (record { rest = c.0; value = c.1; decide = insert_ids f.decide s.decide }))
        ])) [
          | true ↦ done tt
          | false ↦ Ensures-bind (Ensures-trivial (field_at fields i)) λ f _.
              Ensures-bind (Ensures-trivial (value_size f p))
                λ sz _. Ensures-bind (copy_bytes-Same sz p f.offset s.value) λ c h. done h
        ]

  Next-Same :
      (s : Progress) (o : Option Progress) (k : Progress → Outcome (Bool × Progress))
      → Next s o
      → ((t : Progress) → Ensures (λ (r : Bool × Progress). Same t.value r.1.value) (k t))
      → Ensures
          (λ (r : Bool × Progress). Same s.value r.1.value)
          (elim o [ none ↦ ok (false, s) | some t ↦ k t ])
  Next-Same s none k h f = done refl
  Next-Same s (some t) k h f = Ensures-map (f t) λ r e. e ∙ h

  pub set_loop-Same :
      (size : ℤ) (byte : Bytes) (n : ℕ) (s : Progress)
      → Ensures (λ (r : Bool × Progress). Same s.value r.1.value) (set_loop fields size byte n s)
  unfolding set_loop set_field
  set_loop-Same size byte zero s =
      elim (is_before byte s.rest size)
        as (λ (b : Bool).
          Ensures (λ (r : Bool × Progress). Same s.value r.1.value)
            (elim b [ false ↦ ok (true, s) | true ↦ hang ])) [ true ↦ looped | false ↦ done refl ]
  set_loop-Same size byte (suc n) s =
      elim (is_before byte s.rest size)
        as (λ (b : Bool).
          Ensures (λ (r : Bool × Progress). Same s.value r.1.value)
            (elim b [
              | false ↦ ok (true, s)
              | true ↦ set_field fields s >>= λ r. elim r [
                | none ↦ ok (false, s)
                | some t ↦ set_loop fields size byte n t
              ]
            ])) [
              | true ↦
                  Ensures-bind
                    (Ensures-bind (Ensures-trivial (getint2 s.rest)) λ r _. set_value-Next s r)
                    λ o h. Next-Same s o (set_loop fields size byte n) h (set_loop-Same size byte n)
              | false ↦ done refl
            ]
