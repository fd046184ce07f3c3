-- ===== src/Record/Set/Apart.antt =====
-- record.cc: one setting of a SET request against the places of the fields.
use stoxdb.Prelude.{
  ℕ, zero, suc, ◌+◌, ◌^◌, ◌≤◌, ◌<◌, ◌≢◌, List, [], ◌∷◌, ◌++◌, ◌≡◌, refl, ap, ◌∙◌, length, take,
  drop, take-prefix, get_elem?, some, ltb-cases, arith, ◌⊎◌, inl, inr,
}
use stoxdb.Prelude.Int.{pos}
use stoxdb.Outcome.{ok}
use stoxdb.Base.{Bytes}
use stoxdb.Base.Bytes.{setint2}
use stoxdb.Meta.{Field, Meta, layout}
use stoxdb.Meta.Layout.{layout_apart, layout_inside}
use stoxdb.Record.Store.{Progress, value_size, set_field}
use stoxdb.Record.Set.Loop.{replace, length-replace}
use stoxdb.Record.Set.Items.{set_field-setting}

replace-cons : (o : ℕ) (bs v : Bytes) (x : ℕ) → replace (suc o) bs (x ∷ v) ≡ x ∷ replace o bs v
unfolding replace
replace-cons o bs v x =
    let e : suc o + length bs ≡ suc (o + length bs) = omega arith in
    ap (λ n. x ∷ (take o v ++ (bs ++ drop n (x ∷ v)))) e

replace-start : (bs v : Bytes) → replace 0 bs v ≡ bs ++ drop (length bs) v
unfolding replace
replace-start bs v = ap (λ n. bs ++ drop n v) (omega arith)

-- The bytes that were stored.
replace-here :
    (o : ℕ) (bs v : Bytes)
    → o + length bs ≤ length v
    → take (length bs) (drop o (replace o bs v)) ≡ bs
replace-here zero bs v h = rw (replace-start bs v) (take-prefix bs (drop (length bs) v))
replace-here (suc o) bs [] h = absurd (omega (arith, h))
replace-here (suc o) bs (x ∷ v) h =
    rw (replace-cons o bs v x) (replace-here o bs v (omega (arith, h)))

-- What stands in front of them.
take-replace :
    (n o : ℕ) (bs v : Bytes) → n ≤ o → o + length bs ≤ length v → take n (replace o bs v) ≡ take n v
take-replace zero o bs v k h = refl
take-replace (suc n) zero bs v k h = absurd (omega (arith, k))
take-replace (suc n) (suc o) bs [] k h = absurd (omega (arith, h))
take-replace (suc n) (suc o) bs (x ∷ v) k h =
    rw (replace-cons o bs v x)
      (ap (◌∷◌ x) (take-replace n o bs v (omega (arith, k)) (omega (arith, h))))

replace-before :
    (p n o : ℕ) (bs v : Bytes)
    → p + n ≤ o
    → o + length bs ≤ length v
    → take n (drop p (replace o bs v)) ≡ take n (drop p v)
replace-before zero n o bs v k h = take-replace n o bs v (omega (arith, k)) h
replace-before (suc p) n zero bs v k h = absurd (omega (arith, k))
replace-before (suc p) n (suc o) bs [] k h = absurd (omega (arith, h))
replace-before (suc p) n (suc o) bs (x ∷ v) k h =
    rw (replace-cons o bs v x) (replace-before p n o bs v (omega (arith, k)) (omega (arith, h)))

-- What stands behind them.
drop-start :
    (p : ℕ) (bs v : Bytes)
    → length bs ≤ p
    → length bs ≤ length v
    → drop p (bs ++ drop (length bs) v) ≡ drop p v
drop-start p [] v k h = refl
drop-start zero (b ∷ bs) v k h = absurd (omega (arith, k))
drop-start (suc p) (b ∷ bs) [] k h = absurd (omega (arith, h))
drop-start (suc p) (b ∷ bs) (x ∷ v) k h = drop-start p bs v (omega (arith, k)) (omega (arith, h))

replace-behind :
    (p o : ℕ) (bs v : Bytes)
    → o + length bs ≤ p
    → o + length bs ≤ length v
    → drop p (replace o bs v) ≡ drop p v
replace-behind p zero bs v k h =
    rw (replace-start bs v) (drop-start p bs v (omega (arith, k)) (omega (arith, h)))
replace-behind zero (suc o) bs v k h = absurd (omega (arith, k))
replace-behind (suc p) (suc o) bs [] k h = absurd (omega (arith, h))
replace-behind (suc p) (suc o) bs (x ∷ v) k h =
    rw (replace-cons o bs v x) (replace-behind p o bs v (omega (arith, k)) (omega (arith, h)))

take-take : (m n : ℕ) (v : Bytes) → m ≤ n → take m (take n v) ≡ take m v
take-take zero n v h = refl
take-take (suc m) zero v h = absurd (omega (arith, h))
take-take (suc m) (suc n) [] h = refl
take-take (suc m) (suc n) (x ∷ v) h = ap (◌∷◌ x) (take-take m n v (omega (arith, h)))

-- The bytes that a record has for a field.
abbrev pub place : {F : Type 0} → Field F → Bytes → Bytes
place f value = take f.size (drop f.offset value)

strictly : (j i : ℕ) → j ≤ i → j ≢ i → j < i
strictly j i l n = ground (arith, l, n)

module _ {F : Type 0} (meta : Meta F) where
  -- Two fields of the record are the same, or one ends where the other starts, or before.
  fields_apart :
      (i j : ℕ) (f g : Field F)
      → j ≢ i
      → get_elem? (layout meta).fields i ≡ some f
      → get_elem? (layout meta).fields j ≡ some g
      → (f.offset + f.size ≤ g.offset) ⊎ (g.offset + g.size ≤ f.offset)
  fields_apart i j f g n e k = elim (ltb-cases i j) [
    | inl l ↦ inl (layout_apart meta i j f g l e k).0
    | inr l ↦ inr (layout_apart meta j i g f (strictly j i l n) k e).0
  ]

  replace-place :
      (i j : ℕ) (f g : Field F) (bs value : Bytes)
      → j ≢ i
      → get_elem? (layout meta).fields i ≡ some f
      → get_elem? (layout meta).fields j ≡ some g
      → length value ≡ (layout meta).record_size
      → length bs ≤ f.size
      → place g (replace f.offset bs value) ≡ place g value
  replace-place i j f g bs value n e k z l =
      let inside = layout_inside meta i f e in
      let room : f.offset + length bs ≤ length value = omega (arith, inside, z, l) in
      elim (fields_apart i j f g n e k) [
        | inl b ↦
            ap (take g.size) (replace-behind g.offset f.offset bs value (omega (arith, b, l)) room)
        | inr b ↦ replace-before g.offset g.size f.offset bs value b room
      ]

  -- A field number of the laid out record with a value that is not larger than the field, in front of
  -- anything: `setone` reads exactly the two, the value is then found at the place of the field, the
  -- places of all other fields are as before, and so is the size of the record.
  pub set_field-place :
      (i : ℕ) (f : Field F) (bs rest value : Bytes) (decide : List ℕ)
      → get_elem? (layout meta).fields i ≡ some f
      → i < 2 ^ 15
      → length value ≡ (layout meta).record_size
      → value_size f (bs ++ rest) ≡ ok (length bs)
      → length bs ≤ f.size
      → (t : Progress) × (set_field
            (layout meta).fields
            (record { rest = setint2 (pos i) ++ (bs ++ rest); value = value; decide = decide })
          ≡ ok (some t))
        × (t.rest ≡ rest)
        × (take (length bs) (place f t.value) ≡ bs)
        × ((j : ℕ) (g : Field F)
            → j ≢ i
            → get_elem? (layout meta).fields j ≡ some g
            → place g t.value ≡ place g value)
        × (length t.value ≡ length value)
  set_field-place i f bs rest value decide e b z s l =
      let inside = layout_inside meta i f e in
      let room : f.offset + length bs ≤ length value = omega (arith, inside, z, l) in
      (
        _,
        set_field-setting (layout meta).fields bs rest value decide i f e b s room,
        refl,
        take-take (length bs) f.size _ l ∙ replace-here f.offset bs value room,
        λ j g n k. replace-place i j f g bs value n e k z l,
        length-replace f.offset bs value room,
      )
