-- ===== src/Record/Set/Items.antt =====
-- record.cc: `setone` on the fields of a record as a client writes them.
use stoxdb.Prelude.{
  ℕ, zero, suc, ◌+◌, ◌-◌, ◌^◌, ◌≤◌, ◌<◌, List, [], ◌∷◌, ◌++◌, true, ◌≡◌, refl, sym, ap, ◌∙◌, length,
  get_elem?, arith, length-append, append_assoc, none, some, le→ltb, subst,
}
use stoxdb.Prelude.Int.{ℤ, pos}
use stoxdb.Outcome.{Outcome, ok, ◌>>=◌, bind_assoc}
use stoxdb.Double.{Double}
use stoxdb.Base.{Bytes}
use stoxdb.Base.Bytes.{setint2, setint4, setchar2}
use stoxdb.Base.Bytes.Roundtrip.{getint-setint, length-setint, read_bytes-append}
use stoxdb.Meta.{Field, Meta}
use stoxdb.Record.Store.{
  Data, put_record, write_at, insert_ids, copy_bytes, value_size, is_before, Progress, set_value,
  set_field, set_loop, compute_levels, old_record, end_update, setone,
}
use stoxdb.Record.Set.Loop.{
  replace, length-replace, get_elem?-below, field_at-some, is_before-more, set_loop-end,
}

-- A field number and the bytes of its value.
abbrev pub Setting : Type 0
Setting = ℕ × Bytes

unfoldable pub setting_bytes : List Setting → Bytes
setting_bytes [] = []
setting_bytes ((i, bs) ∷ ss) = setint2 (pos i) ++ (bs ++ setting_bytes ss)

-- A record of a SET request: its length, its key and what was set.
unfoldable pub frame : Bytes → Bytes → Bytes
frame key payload = setint4 (pos (2 + length key + length payload)) ++ (setchar2 key ++ payload)

module _ {F : Type 0} (fields : List (Field F)) where
  -- The field is there, and the bytes are of the size that its values announce and have their place in
  -- a record of a size.
  abbrev pub IsSetting : ℕ → Setting → Type 0
  IsSetting room (i, bs) =
      (f : Field F) × (get_elem? fields i ≡ some f)
      × (i < 2 ^ 15)
      × ((rest : Bytes) → value_size f (bs ++ rest) ≡ ok (length bs))
      × (f.offset + length bs ≤ room)

  abbrev pub AreSettings : ℕ → List Setting → Type 0
  AreSettings room [] = Unit {0}
  AreSettings room (s ∷ ss) = IsSetting room s × AreSettings room ss

  -- The record with the values stored, one after the other, and what depends on them.
  unfoldable pub set_values : List Setting → Bytes → Bytes
  set_values [] value = value
  set_values ((i, bs) ∷ ss) value =
      set_values ss
        (elim (get_elem? fields i) [ none ↦ value | some f ↦ replace f.offset bs value ])

  unfoldable pub all_dependants : List Setting → List ℕ → List ℕ
  all_dependants [] decide = decide
  all_dependants ((i, bs) ∷ ss) decide =
      all_dependants ss
        (elim (get_elem? fields i) [ none ↦ decide | some f ↦ insert_ids f.decide decide ])

  pub length-set_values :
      (ss : List Setting) (value : Bytes)
      → AreSettings (length value) ss
      → length (set_values ss value) ≡ length value
  unfolding set_values
  length-set_values [] value h = refl
  length-set_values ((i, bs) ∷ ss) value ((f, e, b, s, r), h) =
      let here = length-replace f.offset bs value r in
      let kept = subst (λ m. AreSettings m ss) (sym here) h in
      rw e (length-set_values ss (replace f.offset bs value) kept ∙ here)

  copy_bytes-replace :
      (bs rest value : Bytes) (offset : ℕ)
      → offset + length bs ≤ length value
      → copy_bytes (length bs) (bs ++ rest) offset value ≡ ok (rest, replace offset bs value)
  unfolding copy_bytes replace write_at
  copy_bytes-replace bs rest value offset h =
      rw (read_bytes-append bs rest, le→ltb (length value) (offset + length bs) h)

  set_value-setting :
      (bs rest : Bytes) (p : Progress) (i : ℕ) (f : Field F)
      → get_elem? fields i ≡ some f
      → value_size f (bs ++ rest) ≡ ok (length bs)
      → f.offset + length bs ≤ length p.value
      → set_value fields p (pos i, bs ++ rest)
        ≡ ok (
            some (record {
              rest = rest;
              value = replace f.offset bs p.value;
              decide = insert_ids f.decide p.decide;
            }))
  unfolding set_value
  set_value-setting bs rest p i f e s r = rw (
    set_value,
    get_elem?-below fields i e,
    field_at-some fields i e,
    s,
    copy_bytes-replace bs rest p.value f.offset r,
  )

  pub set_field-setting :
      (bs rest value : Bytes) (decide : List ℕ) (i : ℕ) (f : Field F)
      → get_elem? fields i ≡ some f
      → i < 2 ^ 15
      → value_size f (bs ++ rest) ≡ ok (length bs)
      → f.offset + length bs ≤ length value
      → set_field fields
          (record { rest = setint2 (pos i) ++ (bs ++ rest); value = value; decide = decide })
        ≡ ok (
            some (record {
              rest = rest;
              value = replace f.offset bs value;
              decide = insert_ids f.decide decide;
            }))
  unfolding set_field
  set_field-setting bs rest value decide i f e b s r =
      ap
        (λ o.
          o
          >>= set_value fields
              (record { rest = setint2 (pos i) ++ (bs ++ rest); value = value; decide = decide }))
        (getint-setint 2 (2 ^ 15) (pos i) (bs ++ rest) refl b)
      ∙ set_value-setting bs rest _ i f e s r

  -- One round of the loop of `setone`.
  set_loop-step :
      (size : ℤ) (byte : Bytes) (s t : Progress) (n : ℕ)
      → is_before byte s.rest size ≡ true
      → set_field fields s ≡ ok (some t)
      → set_loop fields size byte (suc n) s ≡ set_loop fields size byte n t
  unfolding set_loop
  set_loop-step size byte s t n m e = rw (set_loop, m) (rw e refl)

  -- The loop of `setone` over the settings, with enough fuel.
  set_loop-settings :
      (ss : List Setting) (byte rest value : Bytes) (decide : List ℕ) (n : ℕ)
      → AreSettings (length value) ss
      → length (setting_bytes ss) ≤ n
      → length (setting_bytes ss ++ rest) ≤ length byte
      → set_loop fields
          (pos (length byte - length rest))
          byte
          n
          (record { rest = setting_bytes ss ++ rest; value = value; decide = decide })
        ≡ ok (
          true,
          record { rest = rest; value = set_values ss value; decide = all_dependants ss decide },
        )
  unfolding setting_bytes set_values all_dependants
  set_loop-settings [] byte rest value decide n h k l = set_loop-end fields byte _ n
  set_loop-settings ((i, bs) ∷ ss) byte rest value decide zero h k l =
      let head = length-append (setint2 (pos i)) (bs ++ setting_bytes ss) in
      let no : ⊥ = omega (arith, head, length-setint 2 (pos i)) in absurd no
  set_loop-settings ((i, bs) ∷ ss) byte rest value decide (suc n) ((f, e, b, s, r), h) k l =
      let value' = replace f.offset bs value in
      let text = setint2 (pos i) ++ (bs ++ (setting_bytes ss ++ rest)) in
      let shape : (setint2 (pos i) ++ (bs ++ setting_bytes ss)) ++ rest ≡ text =
        rw (append_assoc, append_assoc) in
      let kept : AreSettings (length value') ss =
        subst (λ m. AreSettings m ss) (sym (length-replace f.offset bs value r)) h in
      let head = length-append (setint2 (pos i)) (bs ++ setting_bytes ss) in
      let whole = length-append (setint2 (pos i) ++ (bs ++ setting_bytes ss)) rest in
      let tail = length-append bs (setting_bytes ss) in
      let shorter : length (setting_bytes ss) ≤ n =
        omega (arith, head, tail, length-setint 2 (pos i)) in
      let inside : length (setting_bytes ss ++ rest) ≤ length byte =
        omega (arith, head, tail, whole, length-append (setting_bytes ss) rest) in
      let more : is_before byte text (pos (length byte - length rest)) ≡ true =
        is_before-more byte text rest
          (subst (λ (t : Bytes). length rest < length t) shape
            (omega (arith, head, whole, length-setint 2 (pos i))))
          (subst (λ (t : Bytes). length t ≤ length byte) shape l) in
      rw (shape, e)
        (set_loop-step (pos (length byte - length rest)) byte _ _ n more (
            set_field-setting bs (setting_bytes ss ++ rest) value decide i f e b
              (s (setting_bytes ss ++ rest)) r)
          ∙ set_loop-settings ss byte rest value' (insert_ids f.decide decide) n kept shorter
              inside)

module _ (D : Double) (meta : Meta D.F) (levels : ℕ) where
  -- What an update of a key does to the map: the values are stored in its record, and then the formulas
  -- that depend on them are computed.
  unfoldable pub store_entry : Bytes → List Setting → Data → Outcome Data
  store_entry key ss m =
      compute_levels D meta.fields levels (all_dependants meta.fields ss [])
        (set_values meta.fields ss (old_record D meta m key))
      >>= λ v. ok (put_record key v m)

  -- `setone` on the settings of a client, with anything behind them.
  pub setone-settings :
      (m : Data) (key : Bytes) (ss : List Setting) (rest : Bytes)
      → length key ≤ 64
      → AreSettings meta.fields (length (old_record D meta m key)) ss
      → setone D meta levels m key (setting_bytes ss ++ rest) (pos (length (setting_bytes ss)))
        ≡ (store_entry key ss m >>= λ m'. ok (true, m'))
  unfolding setone store_entry end_update
  setone-settings m key ss rest h a =
      let byte = setting_bytes ss ++ rest in
      let start : Progress = record { rest = byte; value = old_record D meta m key; decide = [] } in
      let end : Progress = record {
        rest = rest;
        value = set_values meta.fields ss (old_record D meta m key);
        decide = all_dependants meta.fields ss [];
      } in
      let room : length (setting_bytes ss) ≤ length byte =
        omega (arith, length-append (setting_bytes ss) rest) in
      let all : length byte - length rest ≡ length (setting_bytes ss) =
        omega (arith, length-append (setting_bytes ss) rest) in
      let ran =
        set_loop-settings meta.fields ss byte rest (old_record D meta m key) [] (length byte) a room
          (omega arith) in
      let loop =
        subst (λ k. set_loop meta.fields (pos k) byte (length byte) start ≡ ok (true, end)) all
          ran in
      rw (le→ltb 64 (length key) h) (
        ap (λ o. o >>= end_update D meta levels m key) loop
        ∙ sym (
            bind_assoc (compute_levels D meta.fields levels end.decide end.value)
              (λ v. ok (put_record key v m)) (λ m'. ok (true, m'))))
