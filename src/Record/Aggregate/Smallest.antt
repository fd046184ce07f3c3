-- ===== src/Record/Aggregate/Smallest.antt =====
-- record.cc: the smallest string that `opt_agg` finds, which starts from the empty string.
use stoxdb.Prelude.{List, [], ◌∷◌, ◌≡◌, refl, Option, none, some}
use stoxdb.Prelude.Int.{pos}
use stoxdb.Outcome.{Outcome, ok, Ensures, done, crashed, Ensures-bind, Ensures-trivial, if_both}
use stoxdb.Double.{Double}
use stoxdb.Base.{Bytes, same}
use stoxdb.Expression.{kchar, is_kind}
use stoxdb.Meta.{Field, Meta}
use stoxdb.Record.Where.{bytes_lt, eq_ℤ}
use stoxdb.Record.Store.{Data}
use stoxdb.Record.Request.{Agg, Request}
use stoxdb.Record.{read_number}
use stoxdb.Record.Order.{field_of}
use stoxdb.Record.Get.{filter_rows, all_values}
use stoxdb.Record.Aggregate.{make_groups, Groups}
use stoxdb.Record.Aggregate.Values.{
  AggItem, AggList, start_items, accumulate, update_item, update_items, text_operand, lesser_text,
  with_number,
}
use stoxdb.Record.Aggregate.Table.{find_group, insert_group, update_group, ensure_group, group_rows}

-- No smallest string was kept, in any item of any group.
abbrev pub NoText : {F : Type 0} → AggList F → Type 0
NoText [] = Unit {0}
NoText (v ∷ vs) = (v.min_s ≡ []) × NoText vs

abbrev pub NoTexts : {F : Type 0} → Groups F → Type 0
NoTexts [] = Unit {0}
NoTexts ((key, items) ∷ g) = NoText items × NoTexts g

lesser_text-empty : (x b : Bytes) → x ≡ [] → lesser_text x b ≡ []
unfolding bytes_lt
lesser_text-empty x [] e = rw e refl
lesser_text-empty x (c ∷ b) e = rw e refl

module _ (D : Double) (fields : List (Field D.F)) where
  open D use {F}

  start_item-NoText :
      {v : AggItem F} {rest : AggList F}
      → v.min_s ≡ []
      → NoText rest
      → Ensures NoText (ok (v ∷ rest))
  start_item-NoText e h = done (e, h)

  start_items-NoText : (xs : List Agg) → Ensures NoText (start_items D fields xs)
  unfolding start_items
  start_items-NoText [] = done tt
  start_items-NoText (x ∷ xs) =
      Ensures-bind (Ensures-trivial (field_of fields x.fid))
        λ f u. Ensures-bind (start_items-NoText xs) λ rest h. start_item-NoText refl h

  -- The smallest string of the item is still empty.
  abbrev Kept : AggItem F → Type 0
  Kept w = w.min_s ≡ []

  with_number-Kept :
      (a : Option F) (use_number : F → AggItem F)
      → ((x : F) → Kept (use_number x))
      → Ensures Kept (with_number D fields a use_number)
  with_number-Kept none use_number h = crashed
  with_number-Kept (some x) use_number h = done (h x)

  accumulate-Kept :
      (f : Field F) (a : Option F) (b : Bytes) (v : AggItem F)
      → Kept v
      → Ensures Kept (accumulate D fields f a b v)
  unfolding accumulate
  accumulate-Kept f a b v e =
      if_both (Ensures Kept) (eq_ℤ v.aid (pos 2)) (λ _. with_number-Kept a _ λ x. e)
        λ _.
          if_both (Ensures Kept) (eq_ℤ v.aid (pos 3)) (λ _. with_number-Kept a _ λ x. e)
            λ _.
              if_both (Ensures Kept) (eq_ℤ v.aid (pos 4))
                (λ _.
                  if_both (Ensures Kept) (is_kind f.type kchar) (λ _. done e)
                    λ _. with_number-Kept a _ λ x. e)
                λ _.
                  if_both (Ensures Kept) (eq_ℤ v.aid (pos 5))
                    (λ _.
                      if_both (Ensures Kept) (is_kind f.type kchar)
                        (λ _. done (lesser_text-empty v.min_s b e))
                        λ _. with_number-Kept a _ λ x. e)
                    λ _. done e

  update_items-NoText :
      (value : Bytes) (vs : AggList F) → NoText vs → Ensures NoText (update_items D fields value vs)
  unfolding update_items update_item
  update_items-NoText value [] h = done tt
  update_items-NoText value (v ∷ vs) (e, h) =
      Ensures-bind
        (Ensures-bind (Ensures-trivial (field_of fields v.fid)) λ f u.
          Ensures-bind (Ensures-trivial (read_number D f value)) λ a u'.
            Ensures-bind (Ensures-trivial (text_operand D fields f value))
              λ b u''. accumulate-Kept f a b _ e)
        λ w k. Ensures-bind (update_items-NoText value vs h) λ ws l. start_item-NoText k l

module _ {F : Type 0} where
  insert_group-NoTexts :
      (key : Bytes) (t : AggList F) (g : Groups F)
      → NoText t
      → NoTexts g
      → NoTexts (insert_group key t g)
  unfolding insert_group
  insert_group-NoTexts key t [] h z = (h, tt)
  insert_group-NoTexts key t ((k, s) ∷ g) h (e, z) =
      if_both NoTexts (bytes_lt key k) (λ _. (h, (e, z))) λ _. (e, insert_group-NoTexts key t g h z)

  ensure_group-NoTexts :
      (start : AggList F) (key : Bytes) (g : Groups F)
      → NoText start
      → NoTexts g
      → NoTexts (ensure_group start key g)
  unfolding ensure_group
  ensure_group-NoTexts start key g h z =
      elim (find_group key g)
        as (λ o. NoTexts (elim o [ none ↦ insert_group key start g | some t ↦ g ])) [
          | none ↦ insert_group-NoTexts key start g h z
          | some t ↦ z
        ]

  group-NoTexts :
      {k : Bytes} {t : AggList F} {g : Groups F}
      → NoText t
      → NoTexts g
      → Ensures NoTexts (ok ((k, t) ∷ g))
  group-NoTexts h z = done (h, z)

  update_group-NoTexts :
      (key : Bytes) (f : AggList F → Outcome (AggList F)) (g : Groups F)
      → ((t : AggList F) → NoText t → Ensures NoText (f t))
      → NoTexts g
      → Ensures NoTexts (update_group key f g)
  unfolding update_group
  update_group-NoTexts key f [] h z = crashed
  update_group-NoTexts key f ((k, t) ∷ g) h (e, z) =
      if_both (Ensures NoTexts) (same k key) (λ _. Ensures-bind (h t e) λ t' e'. group-NoTexts e' z)
        λ _. Ensures-bind (update_group-NoTexts key f g h z) λ g' z'. group-NoTexts e z'

  group_rows-NoTexts :
      (make_key : Bytes → Outcome Bytes) (update : Bytes → AggList F → Outcome (AggList F))
      (start : AggList F) (rows : List Bytes) (g : Groups F)
      → NoText start
      → ((v : Bytes) (t : AggList F) → NoText t → Ensures NoText (update v t))
      → NoTexts g
      → Ensures NoTexts (group_rows make_key update start rows g)
  unfolding group_rows
  group_rows-NoTexts make_key update start [] g s h z = done z
  group_rows-NoTexts make_key update start (v ∷ vs) g s h z =
      Ensures-bind (Ensures-trivial (make_key v)) λ key u.
        Ensures-bind
          (update_group-NoTexts key (update v) _ (h v) (ensure_group-NoTexts start key g s z))
          λ g' z'. group_rows-NoTexts make_key update start vs g' s h z'

module _ (D : Double) (meta : Meta D.F) where
  -- Whatever the records hold, the smallest string of each item of each group that `opt_agg` makes is the
  -- empty one.
  pub make_groups-NoTexts : (r : Request) (m : Data) → Ensures NoTexts (make_groups D meta r m)
  unfolding make_groups
  make_groups-NoTexts r m =
      Ensures-bind (Ensures-trivial (filter_rows D meta r.where_text (all_values m))) λ rows u.
        Ensures-bind (start_items-NoText D meta.fields r.aggs)
          λ start s. group_rows-NoTexts _ _ start rows [] s (update_items-NoText D meta.fields) tt
