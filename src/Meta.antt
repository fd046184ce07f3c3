-- ===== src/Meta.antt =====
-- datypes.h, meta.h and meta.cc: the fields, the settings, and `load_config` over the lines of db.conf.
-- Opening and reading the file is not modelled: its lines are an argument. A field number beyond
-- `fields_` has no dependants; `load_config` stores none.
pub mod Config
pub mod Circle
pub mod Layout
use stoxdb.Prelude.{
  ℕ, zero, suc, ◌+◌, ◌<◌, List, [], ◌∷◌, ◌++◌, map, Bool, true, false, not, ◌&&◌, ◌||◌, ltb, leb,
  ◌==◌, if◌then◌else◌, length, get_elem?, drop, Option, none, some,
}
use stoxdb.Outcome.{Outcome, ok, err, ub, hang, ◌>>=◌, Message}
use stoxdb.Double.{Double}
use stoxdb.Base.{Bytes, same, scanconf, strsplit, tolower, digit, prefix_loop}
use stoxdb.Expression.{
  Kind, kname, kid, kint1, kint2, kint4, kint8, kfloat, kdouble, kchar, is_kind, Node, Expression,
}
use stoxdb.Expression.Check.{check_expression}
use stoxdb.Expression.Lexer.{load_expression}

-- `struct Field`.
pub record Field (F : Type 0) : Type 0 where
  pub name : Bytes
  pub type : Kind
  pub note : Bytes
  pub formula : Expression F
  pub decide : List ℕ
  pub offset : ℕ
  pub size : ℕ
  pub rtype : Bytes
  pub rform : Bytes

-- The settings and the fields of `class Meta`; the pairs of `fname_id_`, the newest first.
pub record Meta (F : Type 0) : Type 0 where
  pub port : ℕ
  pub dump_file : Bytes
  pub magic_number : ℕ
  pub max_recv_size : ℕ
  pub max_connections : ℕ
  pub idle_timeout : ℕ
  pub transport_timeout : ℕ
  pub record_size : ℕ
  pub fields : List (Field F)
  pub fname_id : List (Bytes × ℕ)

abbrev pub bytes_int : Bytes
bytes_int = b'i' ∷ b'n' ∷ b't' ∷ []

abbrev pub bytes_char : Bytes
bytes_char = b'c' ∷ b'h' ∷ b'a' ∷ b'r' ∷ []

abbrev pub bytes_float : Bytes
bytes_float = b'f' ∷ b'l' ∷ b'o' ∷ b'a' ∷ b't' ∷ []

abbrev pub bytes_double : Bytes
bytes_double = b'd' ∷ b'o' ∷ b'u' ∷ b'b' ∷ b'l' ∷ b'e' ∷ []

abbrev pub plain : Kind → ℕ → Outcome (Option (Kind × ℕ))
plain k n = ok (some (k, n))

-- The kind and the size of a type's name; a string has two bytes for its length in front.
unfoldable pub type_of : Bytes → Outcome (Option (Kind × ℕ))
type_of t =
    if same t (bytes_int ++ b'1' ∷ [])
    then plain kint1 1
    else if same t (bytes_int ++ b'2' ∷ [])
    then plain kint2 2
    else if same t (bytes_int ++ b'4' ∷ [])
    then plain kint4 4
    else if same t (bytes_int ++ b'8' ∷ [])
    then plain kint8 8
    else if same t bytes_int
    then plain kint4 4
    else if same t bytes_float
    then plain kfloat 4
    else if same t bytes_double
    then plain kdouble 8
    else if ltb 4 (length t) && prefix_loop t bytes_char
    then (digit (drop 4 t) >>= λ sz.
        ok (if sz == 0 || leb 1000 sz then none else some (kchar, sz + 2)))
    else ok none

abbrev pub Segments : Type 0
Segments = Bytes × Bytes × Bytes

-- The first three segments.
abbrev pub three : List Bytes → Option Segments
three (a ∷ b ∷ c ∷ _) = some (a, b, c)
three _ = none

-- The number of the field with a name.
unfoldable pub find_id : Bytes → List (Bytes × ℕ) → Option ℕ
find_id name [] = none
find_id name ((n, i) ∷ m) = if same n name then some i else find_id name m

module _ {F : Type 0} where
  -- `none` stands for `false`: the start is refused.
  unfoldable pub tofield : Bytes → Outcome (Option (Field F))
  unfolding type_of
  tofield s = elim (three (strsplit s b'|')) [
    | none ↦ ok none
    | some seg ↦
        if ltb 32 (length seg.0)
        then ok none
        else (type_of seg.1 >>= λ t. ok (elim t [
          | none ↦ none
          | some k ↦
              if ltb 256 (length seg.2)
              then none
              else some (record {
                name = tolower seg.0;
                type = k.0;
                note = seg.2;
                formula = [];
                decide = [];
                offset = 0;
                size = k.1;
                rtype = seg.1;
                rform = [];
              })
        ]))
  ]

  unfoldable pub getid : Meta F → Bytes → Option ℕ
  unfolding find_id
  getid meta name = find_id name meta.fname_id

  -- One line of the section [field].
  unfoldable pub add_field : Meta F → Field F → Option (Meta F)
  unfolding getid
  add_field meta f = if ltb 16000 (length meta.fields) then none else elim (getid meta f.name) [
    | some id ↦ none
    | none ↦ some (record meta {
      fields = meta.fields ++ f ∷ [];
      fname_id = (f.name, length meta.fields) ∷ meta.fname_id;
    })
  ]

  -- The offsets, from `offset` on.
  unfoldable pub set_offsets : ℕ → List (Field F) → List (Field F)
  set_offsets offset [] = []
  set_offsets offset (f ∷ fs) = record f { offset = offset } ∷ set_offsets (offset + f.size) fs

  unfoldable pub total_size : List (Field F) → ℕ
  total_size [] = 0
  total_size (f ∷ fs) = f.size + total_size fs

  unfoldable pub layout : Meta F → Meta F
  unfolding set_offsets total_size
  layout meta = record meta {
    fields = set_offsets 0 meta.fields;
    record_size = total_size meta.fields;
  }

  -- Apply a change to one field.
  unfoldable pub update_field : ℕ → (Field F → Field F) → List (Field F) → List (Field F)
  update_field i g [] = []
  update_field zero g (f ∷ fs) = g f ∷ fs
  update_field (suc i) g (f ∷ fs) = f ∷ update_field i g fs

  unfoldable pub decide_of : List (Field F) → ℕ → List ℕ
  decide_of [] i = []
  decide_of (f ∷ fs) zero = f.decide
  decide_of (f ∷ fs) (suc i) = decide_of fs i

-- A field number in the list.
unfoldable pub contains : ℕ → List ℕ → Bool
contains a [] = false
contains a (x ∷ xs) = x == a || contains a xs

unfoldable pub dependants : (ℕ → List ℕ) → List ℕ → List ℕ
dependants decide [] = []
dependants decide (x ∷ xs) = decide x ++ dependants decide xs

-- The loop of `has_circle` on fuel, for any dependency function: the level `curr` is searched, then
-- replaced by the level of its dependants.
unfoldable pub circle_loop : (ℕ → List ℕ) → ℕ → ℕ → List ℕ → Outcome Bool
unfolding contains dependants
circle_loop decide fid zero curr = hang
circle_loop decide fid (suc n) [] = ok false
circle_loop decide fid (suc n) (x ∷ xs) = elim (contains fid (x ∷ xs)) [
  | true ↦ ok true
  | false ↦ circle_loop decide fid n (dependants decide (x ∷ xs))
]

unfoldable pub has_circle : {F : Type 0} → Meta F → ℕ → ℕ → Outcome Bool
has_circle meta fuel fid = circle_loop (decide_of meta.fields) fid fuel (decide_of meta.fields fid)
