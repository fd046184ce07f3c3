-- ===== src/Record/Reply/Columns.antt =====
-- The list of fields that `put_field_to_buffer` of record.cc builds and `Client::Column` of client.cc reads.
use native.Mathlib.Nat.{mod-eq_of_lt}
use stoxdb.Prelude.{
  ℕ, zero, suc, ◌+◌, ◌*◌, ◌^◌, ◌≤◌, ◌<◌, List, [], ◌∷◌, ◌++◌, map, if◌then◌else◌, ◌≡◌, refl, length,
  arith, length-append, append_assoc, le→ltb,
}
use stoxdb.Prelude.Int.{pos, ◌-ℤ◌}
use stoxdb.Outcome.{ok, ◌>>=◌}
use stoxdb.Base.{Bytes}
use stoxdb.Base.Bytes.{setint1, setint2, setchar1, setchar, le_bytes}
use stoxdb.Base.Bytes.Roundtrip.{
  InRange, getint-setint, getchar-setchar, length-setint, length-le_bytes, take-length,
}
use stoxdb.Expression.{Kind, kchar, ordinal, is_kind}
use stoxdb.Meta.{Field, Meta}
use stoxdb.Record.Reply.{column_size, field_column, field_columns, put_field_to_buffer}
use stoxdb.Client.Column.{Column, read_column, column_loop}

column_loop-some :
    (n : ℕ) (p : Bytes)
    → 0 < length p
    → column_loop (suc n) p ≡ (read_column p >>= λ r. column_loop n r.1 >>= λ cs. ok (r.0 ∷ cs))
unfolding column_loop
column_loop-some n [] h = absurd (omega arith)
column_loop-some n (b ∷ p) h = refl

-- The kinds are numbered below 29.
ordinal-small : (k : Kind) → ordinal k < 29
unfolding ordinal
ordinal-small k = ground arith

length-setchar1 : (s : Bytes) → length s < 256 → length (setchar1 s) ≡ suc (length s)
unfolding setchar
length-setchar1 s h =
    let small : length s < 256 ^ 1 = omega arith in
    rw (mod-eq_of_lt small, take-length s)
      (omega (arith, length-append (le_bytes 1 (length s)) s, length-le_bytes 1 (length s)))

module _ {F : Type 0} where
  -- As `tofield` lets a field pass: a short name, a size of two bytes.
  abbrev pub Short : List (Field F) → Type 0
  Short [] = Unit {0}
  Short (f ∷ fs) = (length f.name ≤ 32) × (1 ≤ f.size) × (f.size < 2 ^ 15) × Short fs

  length-field_column :
      (f : Field F) → length f.name ≤ 32 → length (field_column f) ≡ 4 + length f.name
  unfolding field_column
  length-field_column f h =
      let small : length f.name < 256 = omega arith in
      omega (
        arith,
        length-append (setint1 (pos (ordinal f.type))) (setint2 (column_size f) ++ setchar1 f.name),
        length-append (setint2 (column_size f)) (setchar1 f.name),
        length-setint 1 (pos (ordinal f.type)),
        length-setint 2 (column_size f),
        length-setchar1 f.name small,
      )

  length-field_columns :
      (fs : List (Field F)) → Short fs → length (field_columns fs) ≤ 36 * length fs
  unfolding field_columns
  length-field_columns [] h = omega arith
  length-field_columns (f ∷ fs) (h, _, _, hs) = omega (
    arith,
    length-append (field_column f) (field_columns fs),
    length-field_column f h,
    length-field_columns fs hs,
  )

  column_size-InRange :
      (f : Field F) → 1 ≤ f.size → f.size < 2 ^ 15 → InRange (2 ^ 15) (column_size f)
  unfolding column_size ◌-ℤ◌ is_kind ordinal
  column_size-InRange f h k = ground arith

  -- A field as the client sees it: of a string two bytes less than the record has for it.
  abbrev pub shown : Field F → Column
  shown f = record {
    type = pos (ordinal f.type);
    size = if is_kind f.type kchar then pos f.size -ℤ pos 2 else pos f.size;
    name = f.name;
  }

  column_size-shown : (f : Field F) → column_size f ≡ (shown f).size
  unfolding column_size
  column_size-shown f = refl

  read_column-field_column :
      (f : Field F) (rest : Bytes)
      → length f.name ≤ 32
      → 1 ≤ f.size
      → f.size < 2 ^ 15
      → read_column (field_column f ++ rest) ≡ ok (shown f, rest)
  unfolding read_column field_column
  read_column-field_column f rest h k l =
      let kind_small : ordinal f.type < 2 ^ 7 = omega (arith, ordinal-small f.type) in
      let name_small : length f.name < 256 ^ 1 = omega arith in
      rw (
        append_assoc,
        append_assoc,
        getint-setint 1 (2 ^ 7) (pos (ordinal f.type))
            (setint2 (column_size f) ++ (setchar1 f.name ++ rest)) refl kind_small,
        getint-setint 2 (2 ^ 15) (column_size f) (setchar1 f.name ++ rest) refl
            (column_size-InRange f k l),
        column_size-shown f,
        getchar-setchar 1 f.name rest name_small,
      )

  column_loop-cons :
      (f : Field F) (fs : List (Field F)) (n : ℕ)
      → length f.name ≤ 32
      → 1 ≤ f.size
      → f.size < 2 ^ 15
      → column_loop n (field_columns fs) ≡ ok (map shown fs)
      → column_loop (suc n) (field_column f ++ field_columns fs) ≡ ok (shown f ∷ map shown fs)
  column_loop-cons f fs n h k l e =
      let some_bytes : 0 < length (field_column f ++ field_columns fs) =
        omega (arith, length-append (field_column f) (field_columns fs), length-field_column f h) in
      rw (
        column_loop-some n (field_column f ++ field_columns fs) some_bytes,
        read_column-field_column f (field_columns fs) h k l,
        e,
      )

  column_loop-field_columns :
      (fs : List (Field F)) (n : ℕ)
      → Short fs
      → length fs ≤ n
      → column_loop n (field_columns fs) ≡ ok (map shown fs)
  unfolding field_columns column_loop
  column_loop-field_columns [] zero h k = refl
  column_loop-field_columns [] (suc n) h k = refl
  column_loop-field_columns (f ∷ fs) zero h k = absurd (omega arith)
  column_loop-field_columns (f ∷ fs) (suc n) (h1, h2, h3, h) k =
      column_loop-cons f fs n h1 (omega arith) h3 (column_loop-field_columns fs n h (omega arith))

  -- For fields with names of at most 32 bytes and sizes of two bytes the list of the fields stays
  -- inside its space, and the loop of the client, with a round for each field, reads from it the type,
  -- the size and the name of each field in its place; a string is shown without its length in front.
  pub column_loop-put_field_to_buffer :
      (meta : Meta F)
      → Short meta.fields
      → (put_field_to_buffer meta >>= column_loop (length meta.fields)) ≡ ok (map shown meta.fields)
  unfolding put_field_to_buffer
  column_loop-put_field_to_buffer meta h =
      let fs = meta.fields in
      rw (le→ltb (36 * length fs) (length (field_columns fs)) (length-field_columns fs h))
        (column_loop-field_columns fs (length fs) h (omega arith))
