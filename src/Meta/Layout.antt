-- ===== src/Meta/Layout.antt =====
-- The offsets that `load_config` gives the fields of a record.
use stoxdb.Prelude.{ℕ, zero, suc, ◌+◌, ◌≤◌, ◌<◌, List, [], ◌∷◌, ◌≡◌, some, get_elem?, arith}
use stoxdb.Meta.{Field, Meta, set_offsets, total_size, layout}

module _ {F : Type 0} where
  set_offsets_bounds :
      (o : ℕ) (fs : List (Field F)) (i : ℕ) (f : Field F)
      → get_elem? (set_offsets o fs) i ≡ some f
      → (o ≤ f.offset) × (f.offset + f.size ≤ o + total_size fs)
  unfolding set_offsets total_size
  set_offsets_bounds o [] i f e = absurd (cc)
  set_offsets_bounds o (h ∷ fs) zero f e = ground arith
  set_offsets_bounds o (h ∷ fs) (suc i) f e =
      omega (arith, set_offsets_bounds (o + h.size) fs i f e)

  set_offsets_apart :
      (o : ℕ) (fs : List (Field F)) (i j : ℕ) (f g : Field F)
      → i < j
      → get_elem? (set_offsets o fs) i ≡ some f
      → get_elem? (set_offsets o fs) j ≡ some g
      → f.offset + f.size ≤ g.offset
  unfolding set_offsets
  set_offsets_apart o [] i j f g l e k = absurd (cc)
  set_offsets_apart o (h ∷ fs) i zero f g l e k = absurd (omega arith)
  set_offsets_apart o (h ∷ fs) zero (suc j) f g l e k =
      ground (arith, set_offsets_bounds (o + h.size) fs j g k)
  set_offsets_apart o (h ∷ fs) (suc i) (suc j) f g l e k =
      set_offsets_apart (o + h.size) fs i j f g (omega arith) e k

  -- Each field lies inside the record.
  pub layout_inside :
      (meta : Meta F) (i : ℕ) (f : Field F)
      → get_elem? (layout meta).fields i ≡ some f
      → f.offset + f.size ≤ (layout meta).record_size
  unfolding layout
  layout_inside meta i f e = omega (arith, set_offsets_bounds 0 meta.fields i f e)

  -- After the offsets are set each of two fields lies inside the record, and the earlier one ends
  -- where the later one starts, or before.
  pub layout_apart :
      (meta : Meta F) (i j : ℕ) (f g : Field F)
      → i < j
      → get_elem? (layout meta).fields i ≡ some f
      → get_elem? (layout meta).fields j ≡ some g
      → (f.offset + f.size ≤ g.offset) × (g.offset + g.size ≤ (layout meta).record_size)
  unfolding layout
  layout_apart meta i j f g l e k =
      (set_offsets_apart 0 meta.fields i j f g l e k, layout_inside meta j g k)
