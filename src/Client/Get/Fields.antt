-- ===== src/Client/Get/Fields.antt =====
-- client.cc: the fields, keys and orders that `Client::get` finds in the texts of a query.
use stoxdb.Prelude.{
  some-inj, ℕ, zero, suc, ◌+◌, ◌^◌, ◌≤◌, ◌<◌, List, [], ◌∷◌, ltb, ◌==◌, ◌≡◌, refl, length, arith,
  Option, none, some, ◌≢◌, subst, if◌then◌else◌,
}
use stoxdb.Prelude.Int.{ℤ, pos}
use stoxdb.Outcome.{if_both}
use stoxdb.Base.{Bytes, same, strsplit, trim, tolower}
use stoxdb.Meta.{Field}
use stoxdb.Record.Request.{Order, int16, field_ids}
use stoxdb.Client.{Client, Simple, find_simple, getid, map_fields}
use stoxdb.Client.Get.{
  ◌>>=◌, collect, field_id, choose_fields, some_fields, get_fields, short_key, get_keys, order_key,
}
use stoxdb.Client.Get.Roundtrip.{AllOf, IsId, IsKey, int16-pos}

pub bind-some :
    {A B : Type 0} (o : Option A) (f : A → Option B) {b : B}
    → (o >>= f) ≡ some b
    → (a : A) × (o ≡ some a) × (f a ≡ some b)
bind-some none f h = absurd (cc)
bind-some (some a) f h = (a, refl, h)

pub collect-AllOf :
    {A B : Type 0} {P : B → Type 0} (f : A → Option B)
    → ((x : A) (y : B) → f x ≡ some y → P y)
    → (xs : List A) {ys : List B} → collect f xs ≡ some ys
    → AllOf P ys
unfolding collect
collect-AllOf {P = P} f h [] e = subst (AllOf P) (some-inj e) tt
collect-AllOf {P = P} f h (x ∷ xs) e =
    let (y, ey, e1) = bind-some (f x) (λ y. collect f xs >>= λ ys. some (y ∷ ys)) e in
    let (zs, ez, e2) = bind-some (collect f xs) (λ ys. some (y ∷ ys)) e1 in
    subst (AllOf P) (some-inj e2) (h x y ey, collect-AllOf f h xs ez)

-- The numbers in the map are below `n`.
abbrev pub Below : ℕ → List (Bytes × Simple) → Type 0
Below n m = AllOf (λ (p : Bytes × Simple). p.1.id < n) m

pub map_fields-Below :
    {F : Type 0} (n i : ℕ) (fs : List (Field F)) (m : List (Bytes × Simple))
    → i + length fs ≤ n
    → Below n m
    → Below n (map_fields i fs m)
unfolding map_fields
map_fields-Below n i [] m h k = k
map_fields-Below n i (f ∷ fs) m h k = map_fields-Below n (suc i) fs _ (omega arith) (omega arith, k)

find_simple-Below :
    (n : ℕ) (name : Bytes) (m : List (Bytes × Simple)) {s : Simple}
    → Below n m
    → find_simple name m ≡ some s
    → s.id < n
unfolding find_simple
find_simple-Below n name [] h = λ e. absurd (cc)
find_simple-Below n name ((k, t) ∷ m) {s} h =
    if_both (λ o. o ≡ some s → s.id < n) (same k name)
      (λ q e. subst (λ (x : Simple). x.id < n) (some-inj e) h.0)
      (λ q e. find_simple-Below n name m h.1 e)

field_ids-IsId : (n i k : ℕ) → i + k ≤ n → n < 2 ^ 15 → AllOf (IsId n) (field_ids i k)
field_ids-IsId n i zero h b = tt
field_ids-IsId n i (suc k) h b =
    ((i, int16-pos i (omega arith), omega arith), field_ids-IsId n (suc i) k (omega arith) b)

module _ {F : Type 0} (c : Client F) (n : ℕ) (n_small : n < 2 ^ 15)
    (below : Below n c.fname_map) where
  getid-IsId : (name : Bytes) {s : Simple} → getid c name ≡ some s → IsId n (int16 s.id)
  unfolding getid
  getid-IsId name {s} e =
      let k : s.id < n = find_simple-Below n name c.fname_map below e in
      (s.id, int16-pos s.id (omega arith), k)

  field_id-IsId : (name : Bytes) (id : ℤ) → field_id c name ≡ some id → IsId n id
  unfolding field_id
  field_id-IsId name id e =
      let (s, es, e1) = bind-some (getid c (tolower (trim name))) (λ sim. some (int16 sim.id)) e in
      subst (IsId n) (some-inj e1) (getid-IsId (tolower (trim name)) es)

  pub order_key-IsKey : (seg : Bytes) (o : Order) → order_key c seg ≡ some o → IsKey n o
  unfolding order_key
  order_key-IsKey [] o e = absurd (cc)
  order_key-IsKey (t ∷ name) o e =
      let (s, es, e1) =
        bind-some (getid c name)
          (λ sim. some (record { id = int16 sim.id; type = pos (if t == b'1' then 1 else 2) })) e in
      subst (IsKey n) (some-inj e1) (
        getid-IsId name es,
        if_both (λ k. k < 2 ^ 7) (t == b'1') (λ _. omega arith) (λ _. omega arith),
      )

  choose_fields-IsId :
      length c.fields ≤ n
      → (text : Bytes) {ids : List ℤ} → choose_fields c text ≡ some ids
      → AllOf (IsId n) ids
  unfolding choose_fields
  choose_fields-IsId h text {ids} =
      if_both (λ o. o ≡ some ids → AllOf (IsId n) ids) (same text (b'*' ∷ []))
        (λ _ e.
          subst (AllOf (IsId n)) (some-inj e)
            (field_ids-IsId n 0 (length c.fields) (omega arith) n_small))
        (λ _ e. collect-AllOf (field_id c) field_id-IsId (strsplit text b',') e)

some_fields_self : (ids : List ℤ) {js : List ℤ} → some_fields ids ≡ some js → (ids ≡ js) × (js ≢ [])
some_fields_self [] e = absurd (cc)
some_fields_self (id ∷ ids) e = (some-inj e, λ k. cc)

pub get_fields-IsId :
    {F : Type 0} (c : Client F) (n : ℕ)
    → n < 2 ^ 15
    → Below n c.fname_map
    → length c.fields ≤ n
    → (text : Bytes) {ids : List ℤ} → get_fields c text ≡ some ids
    → AllOf (IsId n) ids × (ids ≢ [])
unfolding get_fields
get_fields-IsId c n b m l text {ids} e =
    let (js, ej, e1) = bind-some (choose_fields c text) some_fields e in
    let (same_ids, rest) = some_fields_self js e1 in
    (subst (AllOf (IsId n)) same_ids (choose_fields-IsId c n b m l text ej), rest)

short_key-short : (seg k : Bytes) → short_key seg ≡ some k → length k < 256 ^ 2
unfolding short_key
short_key-short seg k =
    if_both (λ o. o ≡ some k → length k < 256 ^ 2) (ltb 64 (length (trim seg))) (λ _ e. absurd (cc))
      (λ h e. subst (λ t. length t < 256 ^ 2) (some-inj e) (ground (arith, h)))

pub get_keys-short :
    (text : Bytes) {keys : List Bytes}
    → get_keys text ≡ some keys
    → AllOf (λ k. length k < 256 ^ 2) keys
unfolding get_keys
get_keys-short text e = collect-AllOf short_key short_key-short (strsplit text b',') e
