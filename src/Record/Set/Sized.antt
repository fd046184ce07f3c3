-- ===== src/Record/Set/Sized.antt =====
-- record.cc: the sizes of the records in `data_` under `setone` and `opt_set`.
use stoxdb.Prelude.{
  ℕ, zero, suc, List, [], ◌∷◌, Bool, true, false, ltb, ◌≡◌, refl, sym, ◌∙◌, length, drop, replicate,
  length-replicate, Option, none, some, Option-cases, inl, inr, subst,
}
use stoxdb.Prelude.Int.{ℤ, pos, ◌-ℤ◌}
use stoxdb.Outcome.{
  ok, hang, ◌>>=◌, Ensures, done, looped, Ensures-bind, Ensures-map, Ensures-trivial, if_both,
}
use stoxdb.Double.{Double}
use stoxdb.Base.{Bytes}
use stoxdb.Base.Bytes.{getint4, getchar2}
use stoxdb.Meta.{Field, Meta}
use stoxdb.Record.{field_at, formula_compute}
use stoxdb.Record.Store.{
  Data, find_record, value_bytes, store_value, Progress, compute_field, compute_level,
  compute_levels, old_record, end_update, setone, insert_ids,
}
use stoxdb.Record.Set.Items.{
  Setting, AreSettings, all_dependants, set_values, length-set_values, store_entry,
}
use stoxdb.Record.Set.{set_records, move, index_of, is_more, Round, update_record, set_record}
use stoxdb.Record.Set.Lengths.{
  Sized, Same, find_record-Sized, put_record-Sized, copy_bytes-Same, set_loop-Same,
}

module _ (D : Double) (meta : Meta D.F) where
  store_value-Same :
      (f : Field D.F) (value : Bytes) (o : Option Bytes)
      → Ensures (Same value) (store_value f value o)
  unfolding store_value
  store_value-Same f value none = done refl
  store_value-Same f value (some t) =
      Ensures-bind (copy_bytes-Same f.size t f.offset value) λ c h. done h

  compute_field-Same :
      (f : Field D.F) (value : Bytes) → Ensures (Same value) (compute_field D meta.fields f value)
  unfolding compute_field
  compute_field-Same f value =
      Ensures-bind (Ensures-trivial (formula_compute D meta.fields value f.formula)) λ d _.
        Ensures-bind (Ensures-trivial (value_bytes D f.type d)) λ o _. store_value-Same f value o

  compute_level-Same :
      (ids : List ℕ) (value : Bytes) (next : List ℕ)
      → Ensures
          (λ (r : Bytes × List ℕ). Same value r.0)
          (compute_level D meta.fields ids value next)
  unfolding compute_level
  compute_level-Same [] value next = done refl
  compute_level-Same (id ∷ ids) value next =
      Ensures-bind (Ensures-trivial (field_at meta.fields id)) λ f _.
        Ensures-bind (compute_field-Same f value)
          λ v h. Ensures-map (compute_level-Same ids v (insert_ids f.decide next)) λ r k. k ∙ h

  compute_levels-Same :
      (n : ℕ) (ids : List ℕ) (value : Bytes)
      → Ensures (Same value) (compute_levels D meta.fields n ids value)
  unfolding compute_levels
  compute_levels-Same zero [] value = done refl
  compute_levels-Same (suc n) [] value = done refl
  compute_levels-Same zero (id ∷ ids) value = looped
  compute_levels-Same (suc n) (id ∷ ids) value =
      Ensures-bind (compute_level-Same (id ∷ ids) value [])
        λ r h. Ensures-map (compute_levels-Same n r.1 r.0) λ v k. k ∙ h

  pub old_record-Sized :
      (m : Data) (key : Bytes)
      → Sized meta.record_size m
      → length (old_record D meta m key) ≡ meta.record_size
  old_record-Sized m key h =
      let P : Option Bytes → Type 0 = λ o.
        length (elim o [ none ↦ replicate meta.record_size 0 | some v ↦ v ]) ≡ meta.record_size in
      elim (Option-cases (find_record key m)) [
        | inl e ↦ subst P (sym e) (length-replicate {A = ℕ} meta.record_size 0)
        | inr (v, e) ↦ subst P (sym e) (find_record-Sized meta.record_size key m h e)
      ]

  end_update-Sized :
      (levels : ℕ) (m : Data) (key : Bytes) (r : Bool × Progress)
      → Sized meta.record_size m
      → length r.1.value ≡ meta.record_size
      → Ensures (λ (r : Bool × Data). Sized meta.record_size r.1) (end_update D meta levels m key r)
  unfolding end_update
  end_update-Sized levels m key (false, s) h e =
      done (put_record-Sized meta.record_size key s.value m h e)
  end_update-Sized levels m key (true, s) h e =
      Ensures-bind (compute_levels-Same levels s.decide s.value)
        λ v k. done (put_record-Sized meta.record_size key v m h (k ∙ e))

  setone-Sized :
      (levels : ℕ) (m : Data) (key byte : Bytes) (size : ℤ)
      → Sized meta.record_size m
      → Ensures
          (λ (r : Bool × Data). Sized meta.record_size r.1)
          (setone D meta levels m key byte size)
  unfolding setone
  setone-Sized levels m key byte size h =
      if_both (Ensures (λ (r : Bool × Data). Sized meta.record_size r.1)) (ltb 64 (length key))
        (λ _. done h)
        λ _.
          Ensures-bind (set_loop-Same meta.fields size byte (length byte) _)
            λ r e. end_update-Sized levels m key r h (e ∙ old_record-Sized m key h)

  abbrev pub AllSized : Round → Type 0
  AllSized s = Sized meta.record_size s.records

  update_record-Sized :
      (levels : ℕ) (buff : Bytes) (s : Round) (total : ℤ) (key : Bytes × Bytes)
      → AllSized s
      → Ensures AllSized (update_record D meta levels buff s total key)
  unfolding update_record
  update_record-Sized levels buff s total key h =
      let size = total -ℤ pos 2 -ℤ pos (length key.0) in
      Ensures-bind (setone-Sized levels s.records key.0 key.1 size h)
        λ r k. Ensures-bind (Ensures-trivial (move (index_of buff key.1) size)) λ q _. done k

  set_record-Sized :
      (levels : ℕ) (buff : Bytes) (s : Round)
      → AllSized s
      → Ensures AllSized (set_record D meta levels buff s)
  unfolding set_record
  set_record-Sized levels buff s h =
      Ensures-bind (Ensures-trivial (getint4 (drop s.at buff))) λ a _.
        Ensures-bind (Ensures-trivial (getchar2 a.1))
          λ key _. update_record-Sized levels buff s a.0 key h

  -- Whatever bytes a SET request holds: if the loop of `opt_set` comes to an end, every record still
  -- has the size that the fields were laid out for, the new records included.
  pub set_records-Sized :
      (levels n : ℕ) (buff : Bytes) (limit : ℤ) (s : Round)
      → AllSized s
      → Ensures AllSized (set_records D meta levels n buff limit s)
  unfolding set_records
  set_records-Sized levels zero buff limit s h =
      elim (is_more s.at limit)
        as (λ (b : Bool). Ensures AllSized (elim b [ false ↦ ok s | true ↦ hang ])) [
          | true ↦ looped
          | false ↦ done h
        ]
  set_records-Sized levels (suc n) buff limit s h =
      elim (is_more s.at limit)
        as (λ (b : Bool). Ensures AllSized (elim b [
          | false ↦ ok s
          | true ↦ set_record D meta levels buff s >>= λ t. set_records D meta levels n buff limit t
        ])) [
          | true ↦
              Ensures-bind (set_record-Sized levels buff s h)
                λ t k. set_records-Sized levels n buff limit t k
          | false ↦ done h
        ]

  -- The updates of a client keep the sizes as well.
  pub store_entry-Sized :
      (levels : ℕ) (key : Bytes) (ss : List Setting) (m : Data)
      → Sized meta.record_size m
      → AreSettings meta.fields meta.record_size ss
      → Ensures (Sized meta.record_size) (store_entry D meta levels key ss m)
  unfolding store_entry
  store_entry-Sized levels key ss m h a =
      let old = old_record D meta m key in
      let size = old_record-Sized m key h in
      let here = subst (λ n. AreSettings meta.fields n ss) (sym size) a in
      Ensures-bind
        (compute_levels-Same levels (all_dependants meta.fields ss [])
          (set_values meta.fields ss old))
        λ v k. done (
          put_record-Sized meta.record_size key v m h
            (k ∙ (length-set_values meta.fields ss old here ∙ size)))
