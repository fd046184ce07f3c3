-- ===== src/Record/Order/Texts.antt =====
-- `compare` of record.cc on a string, and on the kinds that it passes over.
use stoxdb.Prelude.{
  ℕ, zero, suc, ◌^◌, ◌≤◌, ◌<◌, List, [], ◌∷◌, ◌++◌, Bool, true, false, ◌&&◌, ◌||◌, ltb, ◌==◌, ◌≡◌,
  refl, sym, ap, ◌∙◌, length, take, drop, drop-length, arith, none, some, subst, if◌then◌else◌,
}
use stoxdb.Prelude.Int.{ℤ, pos, ltb_ℤ}
use stoxdb.Outcome.{ok, ◌>>=◌}
use stoxdb.Double.{Double}
use stoxdb.Base.{Bytes, same}
use stoxdb.Base.Bytes.{setint2, getint, read_bytes}
use stoxdb.Base.Bytes.Roundtrip.{getint-setint, length-setint}
use stoxdb.Expression.{kint1, is_kind, ordinal}
use stoxdb.Meta.{Field}
use stoxdb.Record.{read_int}
use stoxdb.Record.Where.{bytes_lt}
use stoxdb.Record.Request.{Order}
use stoxdb.Record.Order.{field_of, compare_bytes, compare_texts, smaller, compare_key, compare}

-- A record that holds a string at an offset, with anything around it.
abbrev pub with_text : Bytes → Bytes → Bytes → Bytes
with_text before text behind = before ++ (setint2 (pos (length text)) ++ (text ++ behind))

read_bytes-prefix :
    (n : ℕ) (xs rest : Bytes)
    → n ≤ length xs
    → read_bytes n (xs ++ rest) ≡ ok (take n xs, drop n xs ++ rest)
unfolding read_bytes
read_bytes-prefix zero xs rest h = refl
read_bytes-prefix (suc n) [] rest h = absurd (omega arith)
read_bytes-prefix (suc n) (x ∷ xs) rest h = rw (read_bytes-prefix n xs rest (omega arith))

-- The shorter length.
abbrev common : Bytes → Bytes → ℕ
common [] b = 0
common (x ∷ a) [] = 0
common (x ∷ a) (y ∷ b) = suc (common a b)

common-length : (a b : Bytes) → (common a b ≤ length a) × (common a b ≤ length b)
common-length [] b = (omega arith, omega arith)
common-length (x ∷ a) [] = (omega arith, omega arith)
common-length (x ∷ a) (y ∷ b) = (omega (arith, common-length a b), omega (arith, common-length a b))

common_smaller :
    (a b : Bytes) → common a b ≡ (if ltb (length a) (length b) then length a else length b)
common_smaller [] [] = refl
common_smaller [] (y ∷ b) = ground arith
common_smaller (x ∷ a) [] = ground arith
common_smaller (x ∷ a) (y ∷ b) = ground (arith, common_smaller a b)

-- The comparison of what both have, and then of the lengths.
abbrev by_parts : ℕ → Bytes → Bytes → Bool
by_parts n a b =
    if same (take n a) (take n b) then ltb (length a) (length b) else bytes_lt (take n a) (take n b)

suc-ltb : (m n : ℕ) → ltb (suc m) (suc n) ≡ ltb m n
suc-ltb m n = ground arith

by_parts-cons :
    (x y : ℕ) (s t u : Bool)
    → (if x == y && s then t else ltb x y || x == y && u)
      ≡ (ltb x y || x == y && (if s then t else u))
by_parts-cons x y true t u = ground arith
by_parts-cons x y false t u = ground arith

by_parts-bytes_lt : (a b : Bytes) → by_parts (common a b) a b ≡ bytes_lt a b
unfolding same bytes_lt
by_parts-bytes_lt [] [] = refl
by_parts-bytes_lt [] (y ∷ b) = ground arith
by_parts-bytes_lt (x ∷ a) [] = ground arith
by_parts-bytes_lt (x ∷ a) (y ∷ b) =
    let n = common a b in
    ap
      (λ l.
        if x == y && same (take n a) (take n b)
        then l
        else ltb x y || x == y && bytes_lt (take n a) (take n b))
      (suc-ltb (length a) (length b))
    ∙ by_parts-cons x y (same (take n a) (take n b)) (ltb (length a) (length b))
        (bytes_lt (take n a) (take n b))
    ∙ ap (λ r. ltb x y || x == y && r) (by_parts-bytes_lt a b)

smaller-pos : (m n : ℕ) → smaller (pos m) (pos n) ≡ pos (if ltb m n then m else n)
smaller-pos m n = ground arith

ltb_ℤ-pos : (m n : ℕ) → ltb_ℤ (pos m) (pos n) ≡ ltb m n
ltb_ℤ-pos m n = ground arith

compare_bytes-bytes_lt :
    (a b behind behind' : Bytes)
    → compare_bytes (pos 1) (pos (length a)) (pos (length b)) (a ++ behind) (b ++ behind')
      ≡ ok (bytes_lt a b)
unfolding compare_bytes
compare_bytes-bytes_lt a b behind behind' =
    let least : smaller (pos (length a)) (pos (length b)) ≡ pos (common a b) =
      smaller-pos (length a) (length b) ∙ ap pos (sym (common_smaller a b)) in
    let bounds = common-length a b in
    rw
      (
        compare_bytes,
        least,
        read_bytes-prefix (common a b) a behind bounds.0,
        read_bytes-prefix (common a b) b behind' bounds.1,
      )
      (ap
          (λ l. ok (
            if same (take (common a b) a) (take (common a b) b)
            then l
            else bytes_lt (take (common a b) a) (take (common a b) b)))
          (ltb_ℤ-pos (length a) (length b))
        ∙ ap ok (by_parts-bytes_lt a b))

module _ (before text behind : Bytes) (h : length text < 2 ^ 15) where
  at_offset :
      drop (length before) (with_text before text behind)
      ≡ setint2 (pos (length text)) ++ (text ++ behind)
  at_offset = drop-length before (setint2 (pos (length text)) ++ (text ++ behind))

  read_int-with_text :
      read_int 2 (length before) (with_text before text behind) ≡ ok (pos (length text))
  read_int-with_text =
      ap (λ p. getint 2 p >>= λ r. ok r.0) at_offset
      ∙ ap (λ o. o >>= λ r. ok r.0)
          (getint-setint 2 (2 ^ 15) (pos (length text)) (text ++ behind) refl h)

  drop-with_text : drop 2 (drop (length before) (with_text before text behind)) ≡ text ++ behind
  drop-with_text =
      ap (drop 2) at_offset
      ∙ subst (λ k. drop k (setint2 (pos (length text)) ++ (text ++ behind)) ≡ text ++ behind)
          (length-setint 2 (pos (length text)))
          (drop-length (setint2 (pos (length text))) (text ++ behind))

-- Two records that hold strings at the same offset are in ascending order exactly where the first
-- string is before the second in the order of the dictionary, byte by byte, a prefix first.
pub compare_texts-bytes_lt :
    (before before' behind behind' a b : Bytes)
    → length a < 2 ^ 15
    → length b < 2 ^ 15
    → length before ≡ length before'
    → compare_texts
        (length before)
        (pos 1)
        (with_text before a behind)
        (with_text before' b behind')
      ≡ ok (bytes_lt a b)
unfolding compare_texts
compare_texts-bytes_lt before before' behind behind' a b ha hb e =
    let right : read_int 2 (length before) (with_text before' b behind') ≡ ok (pos (length b)) =
      subst (λ k. read_int 2 k (with_text before' b behind') ≡ ok (pos (length b))) (sym e)
        (read_int-with_text before' b behind' hb) in
    let rest : drop 2 (drop (length before) (with_text before' b behind')) ≡ b ++ behind' =
      subst (λ k. drop 2 (drop k (with_text before' b behind')) ≡ b ++ behind') (sym e)
        (drop-with_text before' b behind' hb) in
    rw (read_int-with_text before a behind ha, right, drop-with_text before a behind ha, rest)
      (compare_bytes-bytes_lt a b behind behind')

module _ (D : Double) (fields : List (Field D.F)) where
  int1_passed :
      (f : Field D.F) (type : ℤ) (left right : Bytes)
      → f.type ≡ kint1
      → compare_key D fields f type left right ≡ none
  unfolding compare_key is_kind ordinal
  int1_passed f type left right k = rw k

  -- A key of one byte is passed over: the records are compared by the keys behind it, as if it had not
  -- been asked for.
  pub compare-int1 :
      (f : Field D.F) (o : Order) (os : List Order) (left right : Bytes)
      → field_of fields o.id ≡ ok f
      → f.type ≡ kint1
      → compare D fields (o ∷ os) left right ≡ compare D fields os left right
  unfolding compare
  compare-int1 f o os left right e k =
      ap
        (λ r. r >>= λ f. elim (compare_key D fields f o.type left right) [
          | some r ↦ r
          | none ↦ compare D fields os left right
        ])
        e
      ∙ ap (λ r. elim r [ some r ↦ r | none ↦ compare D fields os left right ])
          (int1_passed f o.type left right k)
