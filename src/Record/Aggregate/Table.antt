-- ===== src/Record/Aggregate/Table.antt =====
-- record.cc: the map of `opt_agg`, a list of pairs in the order of its keys, and the loop over the records
-- that fills it.
use stoxdb.Prelude.{List, [], ◌∷◌, if◌then◌else◌, Option, none, some}
use stoxdb.Outcome.{Outcome, ok, ub, ◌>>=◌}
use stoxdb.Base.{Bytes, same}
use stoxdb.Record.Where.{bytes_lt}

-- `map_data.find`, the insertion of a new key, and a change of what is stored at a key.
unfoldable pub find_group : {A : Type 0} → Bytes → List (Bytes × A) → Option A
find_group key [] = none
find_group key ((k, t) ∷ g) = if same k key then some t else find_group key g

unfoldable pub insert_group : {A : Type 0} → Bytes → A → List (Bytes × A) → List (Bytes × A)
insert_group key t [] = (key, t) ∷ []
insert_group key t ((k, s) ∷ g) =
    if bytes_lt key k then (key, t) ∷ (k, s) ∷ g else (k, s) ∷ insert_group key t g

unfoldable pub update_group :
    {A : Type 0} → Bytes → (A → Outcome A) → List (Bytes × A) → Outcome (List (Bytes × A))
update_group key f [] = ub
update_group key f ((k, t) ∷ g) =
    if same k key
    then (f t >>= λ t'. ok ((k, t') ∷ g))
    else (update_group key f g >>= λ g'. ok ((k, t) ∷ g'))

unfoldable pub ensure_group : {A : Type 0} → A → Bytes → List (Bytes × A) → List (Bytes × A)
ensure_group start key g = elim (find_group key g) [ none ↦ insert_group key start g | some t ↦ g ]

module _ {A : Type 0} (make_key : Bytes → Outcome Bytes) (update : Bytes → A → Outcome A)
    (start : A) where
  -- The loop over the records that makes the groups.
  unfoldable pub group_rows : List Bytes → List (Bytes × A) → Outcome (List (Bytes × A))
  group_rows [] g = ok g
  group_rows (v ∷ vs) g = make_key v >>= λ key.
      update_group key (update v) (ensure_group start key g) >>= λ g'. group_rows vs g'
