-- ===== src/Client/Update/Items.antt =====
-- client.cc: what `setvalue` hands on for a name, as a setting of record.cc.
use stoxdb.Prelude.{
  ℕ, suc, ◌+◌, ◌-◌, ◌^◌, ◌≤◌, ◌<◌, List, [], ◌∷◌, ◌++◌, map, Bool, true, false, not, ◌||◌, ltb, ◌≡◌,
  refl, sym, ap, ◌∙◌, length, get_elem?, arith, append_assoc, Option, none, some, if◌then◌else◌,
  subst, ◌⊎◌, inl, inr, Bool-cases,
}
use stoxdb.Prelude.Int.{ℤ, pos, ◌+ℤ◌}
use stoxdb.Outcome.{ok, if_both}
use stoxdb.Base.{Bytes, same}
use stoxdb.Base.Bytes.{setint2, setchar2}
use stoxdb.Base.Bytes.Roundtrip.{getint-setint, length-setint}
use stoxdb.Expression.{Kind, kint1, kint2, kint4, kint8, kchar, is_kind, ordinal}
use stoxdb.Meta.{Field}
use stoxdb.Record.Store.{value_size}
use stoxdb.Record.Set.Items.{Setting, IsSetting}
use stoxdb.Record.Set.Frames.{length-setchar2}
use stoxdb.Client.{Client, Simple, find_simple, getid, map_fields, update_fields}
use stoxdb.Client.Get.Roundtrip.{setchar2-setint}
use stoxdb.Prelude.{some-inj}
use stoxdb.Client.Update.{Item, is_int_kind, kind_bytes, text_of, int_of, text_item, int_item}
use stoxdb.Client.Update.Session.{item_of}

or_false : (a b : Bool) → (not a || b) ≡ false → (a ≡ true) × (b ≡ false)
or_false true b h = (refl, h)
or_false false b h = absurd (cc)

-- The bytes that a record has for an integer, as `tofield` gives them.
abbrev pub int_width : Kind → ℕ
int_width k =
    if is_kind k kint1
    then 1
    else if is_kind k kint2
    then 2
    else if is_kind k kint4
    then 4
    else if is_kind k kint8
    then 8
    else 0

int_kind-plain : (k : Kind) → is_int_kind k ≡ true → is_kind k kchar ≡ false
unfolding is_int_kind is_kind ordinal
int_kind-plain k h = ground arith

length-kind_bytes :
    (k : Kind) (v : ℤ) → is_int_kind k ≡ true → length (kind_bytes k v) ≡ int_width k
unfolding kind_bytes is_int_kind
length-kind_bytes k v h = elim (Bool-cases (is_kind k kint1)) [
  | inl a ↦ rw a (length-setint 1 v)
  | inr a ↦ rw a (elim (Bool-cases (is_kind k kint2)) [
    | inl b ↦ rw b (length-setint 2 v)
    | inr b ↦ rw b (elim (Bool-cases (is_kind k kint4)) [
      | inl c ↦ rw c (length-setint 4 v)
      | inr c ↦ rw c (elim (Bool-cases (is_kind k kint8)) [
        | inl d ↦ rw d (length-setint 8 v)
        | inr d ↦ absurd (ground arith)
      ])
    ])
  ])
]

module _ {F : Type 0} where
  -- A field as `Column` shows it: the size of a string is without its length in front.
  abbrev pub told : Field F → Field F
  told f = record f { size = if is_kind f.type kchar then f.size - 2 else f.size }

  -- A field has its place in a record of a size, with room for its values.
  abbrev pub HasPlace : ℕ → ℕ → Field F → Type 0
  HasPlace room i f =
      (i < 2 ^ 15)
      × (f.offset + f.size ≤ room)
      × (f.size < 2 ^ 15)
      × (is_kind f.type kchar ≡ true → 2 ≤ f.size)
      × (is_int_kind f.type ≡ true → f.size ≡ int_width f.type)

  abbrev pub HavePlaces : List (Field F) → ℕ → Type 0
  HavePlaces fields room = (i : ℕ) (f : Field F) → get_elem? fields i ≡ some f → HasPlace room i f

  -- A pair of the map belongs to a field.
  abbrev IsEntry : List (Field F) → Simple → Type 0
  IsEntry fields s =
      (f : Field F) × (get_elem? fields s.id ≡ some f) × (s.type ≡ f.type) × (s.sz ≡ (told f).size)

  abbrev AreEntries : List (Field F) → List (Bytes × Simple) → Type 0
  AreEntries fields [] = Unit {0}
  AreEntries fields ((n, s) ∷ m) = IsEntry fields s × AreEntries fields m

  map_fields-AreEntries :
      (fields fs : List (Field F)) (i : ℕ) (m : List (Bytes × Simple))
      → ((j : ℕ) (f : Field F) → get_elem? fs j ≡ some f → get_elem? fields (i + j) ≡ some f)
      → AreEntries fields m
      → AreEntries fields (map_fields i (map told fs) m)
  unfolding map_fields
  map_fields-AreEntries fields [] i m h a = a
  map_fields-AreEntries fields (f ∷ fs) i m h a =
      let here : get_elem? fields i ≡ some f =
        subst (λ k. get_elem? fields k ≡ some f) (omega arith) (h 0 f refl) in
      map_fields-AreEntries fields fs (suc i) _
        (λ j g e. subst (λ k. get_elem? fields k ≡ some g) (omega arith) (h (suc j) g e))
        ((f, here, refl, refl), a)

  find_simple-IsEntry :
      (fields : List (Field F)) (name : Bytes) (m : List (Bytes × Simple)) {s : Simple}
      → AreEntries fields m
      → find_simple name m ≡ some s
      → IsEntry fields s
  unfolding find_simple
  find_simple-IsEntry fields name [] a = λ e. absurd (cc)
  find_simple-IsEntry fields name ((n, t) ∷ m) {s} a =
      if_both (λ o. o ≡ some s → IsEntry fields s) (same n name)
        (λ _ e. subst (IsEntry fields) (some-inj e) a.0)
        (λ _ e. find_simple-IsEntry fields name m a.1 e)

  value_size-text :
      (f : Field F) (v rest : Bytes)
      → is_kind f.type kchar ≡ true
      → length v < 2 ^ 15
      → value_size f (setchar2 v ++ rest) ≡ ok (length (setchar2 v))
  unfolding value_size ◌+ℤ◌
  value_size-text f v rest k h =
      rw
        (
          k,
          length-setchar2 v (omega arith),
          setchar2-setint v h,
          append_assoc,
          getint-setint 2 (2 ^ 15) (pos (length v)) (v ++ rest) refl h,
        )
        (ground arith)

  value_size-plain :
      (f : Field F) (p : Bytes) → is_kind f.type kchar ≡ false → value_size f p ≡ ok f.size
  unfolding value_size
  value_size-plain f p k = rw k

  module _ (fields : List (Field F)) (room : ℕ) (places : HavePlaces fields room) where
    -- What a call hands on is a setting.
    abbrev pub Sets : Item → Type 0
    Sets item = (s : Setting) × (item_of s ≡ some item) × IsSetting fields room s

    text_of-Sets :
        (v : Bytes) (sim : Simple) {item : Item}
        → IsEntry fields sim
        → text_of v (some sim) ≡ some item
        → Sets item
    unfolding text_of
    text_of-Sets v sim {item} (f, e, t, z) =
        let (i, r, b, c, _) = places sim.id f e in
        if_both (λ o. o ≡ some item → Sets item)
          (not (is_kind sim.type kchar) || ltb sim.sz (length v)) (λ _ q. absurd (cc))
          (λ h q.
            let (k, l) = or_false (is_kind sim.type kchar) (ltb sim.sz (length v)) h in
            let text : is_kind f.type kchar ≡ true = ap (λ x. is_kind x kchar) (sym t) ∙ k in
            let two : 2 ≤ f.size = c text in
            let size : sim.sz ≡ f.size - 2 = z ∙ ap (λ x. if x then f.size - 2 else f.size) text in
            let short : length v ≤ sim.sz = ground (arith, l) in
            let written = length-setchar2 v (omega arith) in
            let count : 2 + length (setchar2 v) ≡ 4 + length v = omega (arith, written) in
            (
              (sim.id, setchar2 v),
              ap (λ n. some (n, setint2 (pos sim.id) ++ setchar2 v)) count ∙ q,
              (
                f,
                e,
                i,
                λ rest. value_size-text f v rest text (omega arith),
                omega (arith, written),
              ),
            ))

    int_of-Sets :
        (v : ℤ) (sim : Simple) {item : Item}
        → IsEntry fields sim
        → int_of v (some sim) ≡ some item
        → Sets item
    unfolding int_of
    int_of-Sets v sim {item} (f, e, t, z) =
        let (i, r, b, _, n) = places sim.id f e in
        if_both (λ o. o ≡ some item → Sets item) (is_int_kind sim.type)
          (λ h q.
            let int : is_int_kind f.type ≡ true = ap is_int_kind (sym t) ∙ h in
            let plain = int_kind-plain f.type int in
            let size : sim.sz ≡ f.size = z ∙ ap (λ x. if x then f.size - 2 else f.size) plain in
            let count : length (kind_bytes sim.type v) ≡ f.size =
              ap (λ k. length (kind_bytes k v)) t
              ∙ (length-kind_bytes f.type v int ∙ sym (n int)) in
            let total : 2 + length (kind_bytes sim.type v) ≡ 2 + sim.sz =
              omega (arith, count, size) in
            (
              (sim.id, kind_bytes sim.type v),
              ap (λ n. some (n, setint2 (pos sim.id) ++ kind_bytes sim.type v)) total ∙ q,
              (
                f,
                e,
                i,
                λ rest.
                    value_size-plain f (kind_bytes sim.type v ++ rest) plain ∙ ap ok (sym count),
                omega (arith, count),
              ),
            ))
          (λ _ q. absurd (cc))

    known :
        (name : Bytes) {s : Simple}
        → find_simple name (map_fields 0 (map told fields) []) ≡ some s
        → IsEntry fields s
    known name = find_simple-IsEntry fields name _ (
        map_fields-AreEntries fields fields 0 []
          (λ j f k. subst (λ n. get_elem? fields n ≡ some f) (omega arith) k) tt)

    text_cases :
        (v : Bytes) (o : Option Simple) {item : Item}
        → ((s : Simple) → o ≡ some s → IsEntry fields s)
        → text_of v o ≡ some item
        → Sets item
    unfolding text_of
    text_cases v none h q = absurd (cc)
    text_cases v (some sim) h q = text_of-Sets v sim (h sim refl) q

    int_cases :
        (v : ℤ) (o : Option Simple) {item : Item}
        → ((s : Simple) → o ≡ some s → IsEntry fields s)
        → int_of v o ≡ some item
        → Sets item
    unfolding int_of
    int_cases v none h q = absurd (cc)
    int_cases v (some sim) h q = int_of-Sets v sim (h sim refl) q

    -- A client that was told the fields of the server, an integer field with the 1, 2, 4 or 8 bytes of
    -- its type: whatever a call of `setvalue` with a string or an integer hands on is a setting that the
    -- server takes, of a field that is there, with as many bytes as the server reads for it, inside the
    -- record.
    pub setvalue-Sets :
        (c : Client F) (name : Bytes) {item : Item}
        → ((v : Bytes) × (text_item (update_fields c (map told fields)) name v ≡ some item))
          ⊎ ((v : ℤ) × (int_item (update_fields c (map told fields)) name v ≡ some item))
        → Sets item
    unfolding text_item int_item getid update_fields
    setvalue-Sets c name (inl (v, q)) = text_cases v _ (λ s. known name) q
    setvalue-Sets c name (inr (v, q)) = int_cases v _ (λ s. known name) q
