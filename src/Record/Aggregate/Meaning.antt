-- ===== src/Record/Aggregate/Meaning.antt =====
-- record.cc: the groups that the loop of `opt_agg` makes, against the records of each group.
use stoxdb.Prelude.{
  List, [], ◌∷◌, Bool, true, false, ◌≡◌, refl, sym, ◌∙◌, ap, subst, if◌then◌else◌, Option, none,
  some, some-inj, Option-cases, Bool-cases, inl, inr,
}
use stoxdb.Outcome.{
  Outcome, ok, err, ub, hang, ◌>>=◌, bind_assoc, bind_congr, Ensures, done, failed, crashed, looped,
  Ensures-bind, Ensures-map, Ensures-eq, if_both,
}
use stoxdb.Double.{Double}
use stoxdb.Base.{Bytes, same}
use stoxdb.Meta.{Meta}
use stoxdb.Record.Where.{bytes_lt}
use stoxdb.Record.Store.{Data}
use stoxdb.Record.Request.{Request}
use stoxdb.Record.Get.{keep_if, filter_rows, all_values}
use stoxdb.Record.Aggregate.{make_groups, Groups}
use stoxdb.Record.Aggregate.Values.{AggList, start_items, update_items, make_key_by_group}
use stoxdb.Record.Aggregate.Table.{find_group, insert_group, update_group, ensure_group, group_rows}
use stoxdb.Record.Aggregate.Keys.{same_eq, same_self, same_apart, if_swap, if_again}

-- A value is one that the run returns.
Ensures-self : {A : Type 0} (r : Outcome A) → Ensures (λ a. r ≡ ok a) r
Ensures-self (ok a) = done refl
Ensures-self (err e) = failed
Ensures-self ub = crashed
Ensures-self hang = looped

module _ {A : Type 0} where
  find_group-insert :
      (k key : Bytes) (t : A) (g : List (Bytes × A))
      → find_group key g ≡ none
      → find_group k (insert_group key t g) ≡ (if same key k then some t else find_group k g)
  unfolding find_group insert_group
  find_group-insert k key t [] = λ e. refl
  find_group-insert k key t ((j, s) ∷ g) =
      if_both
        (λ o.
          o ≡ none
          → find_group k (insert_group key t ((j, s) ∷ g))
            ≡ (if same key k then some t else find_group k ((j, s) ∷ g)))
        (same j key) (λ _ e. absurd (cc))
        λ h e.
          if_both (λ r. find_group k r ≡ (if same key k then some t else find_group k ((j, s) ∷ g)))
            (bytes_lt key j) (λ _. refl)
            (λ _.
              rw (find_group-insert k key t g e)
                (if_swap (same j k) (same key k) _ _ _ (same_apart j key k h)))

  -- What stands at each key after a change.
  abbrev Changed : Bytes → Outcome A → List (Bytes × A) → List (Bytes × A) → Type 0
  Changed key r g g' =
      (t : A) × (r ≡ ok t)
      × ((k : Bytes) → find_group k g' ≡ (if same key k then some t else find_group k g))

  update_group-Changed :
      (key : Bytes) (f : A → Outcome A) (g : List (Bytes × A)) (t : A)
      → find_group key g ≡ some t
      → Ensures (Changed key (f t) g) (update_group key f g)
  unfolding find_group update_group
  update_group-Changed key f [] t = λ e. absurd (cc)
  update_group-Changed key f ((j, s) ∷ g) t = elim (Bool-cases (same j key)) [
    | inl h ↦ rw h (λ e. Ensures-bind (Ensures-self (f s)) λ t' u. done (
      t',
      subst (λ x. f x ≡ ok t') (some-inj e) u,
      λ k. rw (same_eq j key h) (if_again (same key k) _ _ _),
    ))
    | inr h ↦ rw h (λ e. Ensures-bind (update_group-Changed key f g t e) λ g' c.
        done (
          c.0,
          c.1,
          λ k. rw (c.2 k) (if_swap (same j k) (same key k) _ _ _ (same_apart j key k h)),
        ))
  ]

  -- What stands at a key, or what a group starts from.
  abbrev or_start : A → Option A → A
  or_start start none = start
  or_start start (some t) = t

  abbrev pub group_of : A → Bytes → List (Bytes × A) → A
  group_of start k g = or_start start (find_group k g)

  or_start-if :
      (start t : A) (b : Bool) (o : Option A)
      → or_start start (if b then some t else o) ≡ (if b then t else or_start start o)
  or_start-if start t true o = refl
  or_start-if start t false o = refl

-- The records with a key.
abbrev pub rows_of : (Bytes → Outcome Bytes) → Bytes → List Bytes → Outcome (List Bytes)
rows_of make_key k = keep_if (λ v. make_key v >>= λ j. ok (same j k))

-- What the records of a list make of a value, one after the other.
abbrev pub update_rows : {A : Type 0} → (Bytes → A → Outcome A) → A → List Bytes → Outcome A
update_rows update t [] = ok t
update_rows update t (v ∷ vs) = update v t >>= λ t'. update_rows update t' vs

module _ {A : Type 0} (make_key : Bytes → Outcome Bytes) (update : Bytes → A → Outcome A)
    (start : A) where
  ensure_group-new :
      (key : Bytes) (g : List (Bytes × A))
      → find_group key g ≡ none
      → ensure_group start key g ≡ insert_group key start g
  unfolding ensure_group
  ensure_group-new key g e = rw (ensure_group, e) refl

  ensure_group-old :
      (key : Bytes) (g : List (Bytes × A)) {t : A}
      → find_group key g ≡ some t
      → ensure_group start key g ≡ g
  unfolding ensure_group
  ensure_group-old key g e = rw (ensure_group, e) refl

  ensure_group-find :
      (key : Bytes) (g : List (Bytes × A))
      → (find_group key (ensure_group start key g) ≡ some (group_of start key g))
        × ((k : Bytes) → group_of start k (ensure_group start key g) ≡ group_of start k g)
  ensure_group-find key g = elim (Option-cases (find_group key g)) [
    | inl e ↦
        rw (ensure_group-new key g e, e)
          (
            find_group-insert key key start g e ∙ rw (same_self key) refl,
            λ k.
                ap (or_start start) (find_group-insert k key start g e)
                ∙ or_start-if start start (same key k) (find_group k g)
                ∙ if_both (λ x. x ≡ or_start start (find_group k g)) (same key k)
                    (λ h.
                      subst (λ x. start ≡ or_start start (find_group x g)) (same_eq key k h)
                        (rw e refl))
                    λ _. refl,
          )
    | inr (t, e) ↦ rw (ensure_group-old key g e, e) (refl, λ k. refl)
  ]

  -- One record changes what stands at its key.
  row-Changed :
      (key v : Bytes) (g : List (Bytes × A))
      → Ensures
          (λ g'.
            (t : A) × (update v (group_of start key g) ≡ ok t)
            × ((k : Bytes) → group_of start k g' ≡ (if same key k then t else group_of start k g)))
          (update_group key (update v) (ensure_group start key g))
  row-Changed key v g =
      let (here, all) = ensure_group-find key g in
      Ensures-map (update_group-Changed key (update v) (ensure_group start key g) _ here) λ g' c. (
        c.0,
        c.1,
        λ k.
            ap (or_start start) (c.2 k)
            ∙ or_start-if start c.0 (same key k) _
            ∙ ap (λ x. if same key k then c.0 else x) (all k),
      )

  keep_row :
      (b : Bool) (v : Bytes) (o : Outcome (List Bytes)) (x t : A)
      → (b ≡ true → update v x ≡ ok t)
      → ((o >>= λ rest. ok (if b then v ∷ rest else rest)) >>= update_rows update x)
        ≡ (o >>= update_rows update (if b then t else x))
  keep_row true v o x t h = bind_assoc o _ _ ∙ bind_congr o λ rest. rw (h refl) refl
  keep_row false v o x t h = bind_assoc o _ _

  group_rows-loop :
      (k : Bytes) (rows : List Bytes) (g : List (Bytes × A))
      → Ensures
          (λ g'.
            (rows_of make_key k rows >>= update_rows update (group_of start k g))
            ≡ ok (group_of start k g'))
          (group_rows make_key update start rows g)
  unfolding group_rows keep_if
  group_rows-loop k [] g = done refl
  group_rows-loop k (v ∷ vs) g = Ensures-bind (Ensures-self (make_key v)) λ key e.
      Ensures-bind (row-Changed key v g) λ g1 c. Ensures-map (group_rows-loop k vs g1) λ g' r.
        rw e (
          keep_row (same key k) v (rows_of make_key k vs) _ c.0
            (λ h. subst (λ x. update v (group_of start x g) ≡ ok c.0) (same_eq key k h) c.1)
          ∙ ap (λ x. rows_of make_key k vs >>= update_rows update x) (sym (c.2 k))
          ∙ r)

module _ (D : Double) (meta : Meta D.F) where
  open D use {F}

  -- Where `opt_agg` makes groups, each key has what the functions make of the records that satisfy the
  -- condition and have that key, one after the other from the start of a group; a key that no such record
  -- has is left at that start.
  pub make_groups-rows_of :
      (r : Request) (m : Data) {g : Groups F} {rows : List Bytes} {start : AggList F} (k : Bytes)
      → filter_rows D meta r.where_text (all_values m) ≡ ok rows
      → start_items D meta.fields r.aggs ≡ ok start
      → make_groups D meta r m ≡ ok g
      → (rows_of (make_key_by_group meta.fields r.group) k rows
          >>= update_rows (update_items D meta.fields) start)
        ≡ ok (group_of start k g)
  unfolding make_groups find_group
  make_groups-rows_of r m {rows = rows} {start = start} k e1 e2 =
      rw (e1, e2)
        (Ensures-eq (
          group_rows-loop (make_key_by_group meta.fields r.group) (update_items D meta.fields) start
            k rows []))
