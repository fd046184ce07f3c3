-- ===== src/Record/Dump/Roundtrip.antt =====
-- record.cc: `load` on a file that `dump` wrote.
use stoxdb.Prelude.{
  ℕ, zero, suc, ◌-◌, ◌^◌, ◌≤◌, ◌<◌, [], ◌∷◌, ◌++◌, if◌then◌else◌, Bool-cases, inl, inr, ◌≡◌, refl,
  sym, ap, ◌∙◌, length, arith, length-append, append_assoc, append-nil, none, some, le→ltb, lt→ltb,
  subst,
}
use stoxdb.Prelude.Int.{pos}
use stoxdb.Outcome.{ok, ub, ◌>>=◌}
use stoxdb.Base.{Bytes, same}
use stoxdb.Base.Bytes.{setint2, setint4, read_bytes}
use stoxdb.Base.Bytes.Roundtrip.{getint-setint, length-setint, read_bytes-append}
use stoxdb.Record.Store.{Data, find_record, put_record}
use stoxdb.Record.Set.Lengths.{Sized}
use stoxdb.Record.Dump.{key_space, dump_record, dump_loop, load_key, load_value, load_record, load}

-- No key of a map is among those in front of it.
abbrev pub Fresh : Data → Data → Type 0
Fresh before [] = Unit {0}
Fresh before ((k, v) ∷ m) = (find_record k before ≡ none) × Fresh (before ++ (k, v) ∷ []) m

-- No key has more than 32 bytes.
abbrev pub ShortKeys : Data → Type 0
ShortKeys [] = Unit {0}
ShortKeys ((k, v) ∷ m) = (length k ≤ key_space) × ShortKeys m

-- The bytes of a record in the file.
abbrev pub record_bytes : Bytes → Bytes → Bytes
record_bytes k v = setint2 (pos (length k)) ++ (k ++ (setint4 (pos (length v)) ++ v))

read_all : (v : Bytes) → read_bytes (length v) v ≡ ok (v, [])
read_all v = ap (read_bytes (length v)) (sym (append-nil v)) ∙ read_bytes-append v []

dump_record-bytes : (k v : Bytes) → dump_record (length v) k v ≡ ok (record_bytes k v)
unfolding dump_record
dump_record-bytes k v = rw (read_all v)

load_key-bytes :
    (k rest : Bytes)
    → length k ≤ key_space
    → load_key (setint2 (pos (length k)) ++ (k ++ rest)) ≡ ok (k, rest)
unfolding load_key
load_key-bytes k rest h =
    let small : length k < 2 ^ 15 = omega arith in
    rw (
      getint-setint 2 (2 ^ 15) (pos (length k)) (k ++ rest) refl small,
      le→ltb key_space (length k) h,
      read_bytes-append k rest,
    )

load_value-bytes :
    (v rest : Bytes)
    → length v < 2 ^ 31
    → load_value (length v) (setint4 (pos (length v)) ++ (v ++ rest)) ≡ ok (v, rest)
unfolding load_value
load_value-bytes v rest h =
    let no_rest : length v - length v ≡ 0 = omega arith in
    rw
      (
        getint-setint 4 (2 ^ 31) (pos (length v)) (v ++ rest) refl h,
        le→ltb (length v) (length v) (omega arith),
        read_bytes-append v rest,
        no_rest,
      )
      (ap (λ t. ok (t, rest)) (append-nil v))

load_record-bytes :
    (m : Data) (k v rest : Bytes)
    → length k ≤ key_space
    → length v < 2 ^ 31
    → load_record (length v) m (record_bytes k v ++ rest) ≡ ok (put_record k v m, rest)
unfolding load_record
load_record-bytes m k v rest h l = rw (
  append_assoc,
  append_assoc,
  append_assoc,
  load_key-bytes k (setint4 (pos (length v)) ++ (v ++ rest)) h,
  load_value-bytes v rest l,
)

put_record-new :
    (k v : Bytes) (m : Data) → find_record k m ≡ none → put_record k v m ≡ m ++ (k, v) ∷ []
unfolding put_record find_record
put_record-new k v [] e = refl
put_record-new k v ((k', v') ∷ m) e = elim (Bool-cases (same k' k)) [
  | inl q ↦
      let no : some v' ≡ none = ap (λ b. if b then some v' else find_record k m) (sym q) ∙ e in
      absurd (cc)
  | inr q ↦
      let rest : find_record k m ≡ none =
        ap (λ b. if b then some v' else find_record k m) (sym q) ∙ e in
      ap (λ b. if b then (k', v) ∷ m else (k', v') ∷ put_record k v m) q
      ∙ ap (◌∷◌ (k', v')) (put_record-new k v m rest)
]

length-record_bytes : (k v : Bytes) → 0 < length (record_bytes k v)
length-record_bytes k v = omega (
  arith,
  length-append (setint2 (pos (length k))) (k ++ (setint4 (pos (length v)) ++ v)),
  length-setint 2 (pos (length k)),
)

load-some :
    (size n : ℕ) (m : Data) (p : Bytes)
    → 0 < length p
    → load size (suc n) m p ≡ (load_record size m p >>= λ r. load size n r.0 r.1)
unfolding load
load-some size n m [] h = absurd (omega arith)
load-some size n m (b ∷ p) h = refl

load-end : (size n : ℕ) (m : Data) → load size n m [] ≡ ok m
unfolding load
load-end size zero m = refl
load-end size (suc n) m = refl

-- The file of a map is written, and read behind what was read before it.
load-dump_loop :
    (size n : ℕ) (before m : Data)
    → size < 2 ^ 31
    → Sized size m
    → ShortKeys m
    → Fresh before m
    → length m ≤ n
    → (file : Bytes) × (dump_loop size m ≡ ok file) × (load size n before file ≡ ok (before ++ m))
unfolding dump_loop
load-dump_loop size n before [] l z s f h =
    ([], refl, load-end size n before ∙ ap ok (sym (append-nil before)))
load-dump_loop size zero before (x ∷ m) l z s f h = absurd (omega arith)
load-dump_loop size (suc n) before ((k, v) ∷ m) l (e, z) (a, s) (g, f) h =
    let (file, wrote, read) =
      load-dump_loop size n (before ++ (k, v) ∷ []) m l z s f (omega arith) in
    let one : dump_record size k v ≡ ok (record_bytes k v) =
      subst (λ t. dump_record t k v ≡ ok (record_bytes k v)) e (dump_record-bytes k v) in
    let back : load_record size before (record_bytes k v ++ file)
        ≡ ok (before ++ (k, v) ∷ [], file) =
      subst
        (λ t. load_record t before (record_bytes k v ++ file) ≡ ok (put_record k v before, file)) e
        (load_record-bytes before k v file a (omega (arith, e)))
      ∙ ap (λ t. ok (t, file)) (put_record-new k v before g) in
    let some_bytes : 0 < length (record_bytes k v ++ file) =
      omega (arith, length-append (record_bytes k v) file, length-record_bytes k v) in
    (
      record_bytes k v ++ file,
      rw (one, wrote) refl,
      load-some size n before (record_bytes k v ++ file) some_bytes
          ∙ ap (λ o. o >>= λ r. load size n r.0 r.1) back
          ∙ read
          ∙ ap ok (append_assoc before ((k, v) ∷ []) m),
    )

-- A map without a key twice, with records of the size below 2 GB and keys of at most 32 bytes, is
-- written to the file, and a start with the same fields reads the same map from it.
pub load-dump :
    (size : ℕ) (m : Data)
    → size < 2 ^ 31
    → Sized size m
    → ShortKeys m
    → Fresh [] m
    → (file : Bytes) × (dump_loop size m ≡ ok file) × (load size (length m) [] file ≡ ok m)
load-dump size m l z s f = load-dump_loop size (length m) [] m l z s f (omega arith)

-- A file with a record whose key has from 33 to 64 bytes, as `setone` lets a key pass, is written past
-- the end of the array of 32 bytes when the server starts.
pub load-overflow :
    (size n : ℕ) (m : Data) (k v rest : Bytes)
    → key_space < length k
    → length k ≤ 64
    → load size (suc n) m (record_bytes k v ++ rest) ≡ ub
unfolding load_record load_key
load-overflow size n m k v rest h l =
    let tail = setint4 (pos (length v)) ++ v in
    let some_bytes : 0 < length (record_bytes k v ++ rest) =
      omega (arith, length-append (record_bytes k v) rest, length-record_bytes k v) in
    let long : load_key (setint2 (pos (length k)) ++ (k ++ (tail ++ rest))) ≡ ub = rw (
      getint-setint 2 (2 ^ 15) (pos (length k)) (k ++ (tail ++ rest)) refl (omega arith),
      lt→ltb key_space (length k) h,
    ) in
    load-some size n m (record_bytes k v ++ rest) some_bytes ∙ rw (append_assoc, append_assoc, long)
