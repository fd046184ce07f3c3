-- ===== src/Meta/Config.antt =====
-- `load_config` of meta.cc, over the lines of the file. `none` stands for `false`, with which the
-- program does not start; the search for circles takes its fuel as an argument.
use stoxdb.Prelude.{
  ℕ, zero, suc, List, [], ◌∷◌, ◌++◌, reverse, Bool, true, false, ◌||◌, ◌==◌, if◌then◌else◌, length,
  get_elem?, drop, Option, none, some,
}
use stoxdb.Outcome.{Outcome, ok, err, ub, hang, ◌>>=◌}
use stoxdb.Double.{Double}
use stoxdb.Base.{Bytes, same, scanconf, strsplit, tolower, digit}
use stoxdb.Expression.{kname, kid, kchar, is_kind, Expression}
use stoxdb.Expression.Check.{check_expression}
use stoxdb.Expression.Lexer.{load_loop}
use stoxdb.Meta.{Field, Meta, tofield, find_id, add_field, layout, update_field, has_circle}

-- A line up to the first `#`, without spaces and line ends.
unfoldable pub clean_line : Bytes → Bytes
clean_line [] = []
clean_line (c ∷ cs) =
    let more = clean_line cs in
    if c == 0 || c == b'#' then [] else if c == b' ' || c == b'\n' then more else c ∷ more

abbrev pub add_line : Bytes → List Bytes → List Bytes
add_line [] conf = conf
add_line (c ∷ s) conf = (c ∷ s) ∷ conf

unfoldable pub clean_lines : List Bytes → List Bytes
unfolding clean_line
clean_lines [] = []
clean_lines (l ∷ ls) = add_line (clean_line l) (clean_lines ls)

abbrev pub opens_section : Bytes → Bool
opens_section [] = false
opens_section (c ∷ s) = c == b'['

unfoldable pub until_section : List Bytes → List Bytes
until_section [] = []
until_section (s ∷ ss) = if opens_section s then [] else s ∷ until_section ss

-- The lines behind a section's header; from the first line on where the header is missing.
unfoldable pub section : List Bytes → Bytes → List Bytes
unfolding until_section
section conf key = elim (scanconf 0 conf key) [
  | none ↦ until_section conf
  | some p ↦ until_section (drop (suc p) conf)
]

abbrev pub Pair : Type 0
Pair = Bytes × Bytes

abbrev pub two : List Bytes → Option Pair
two (a ∷ b ∷ []) = some (a, b)
two _ = none

-- The names of the settings and of the sections.
abbrev key_port : Bytes
key_port = b'p' ∷ b'o' ∷ b'r' ∷ b't' ∷ []

abbrev key_dump_file : Bytes
key_dump_file = b'd' ∷ b'u' ∷ b'm' ∷ b'p' ∷ b'_' ∷ b'f' ∷ b'i' ∷ b'l' ∷ b'e' ∷ []

abbrev key_magic_number : Bytes
key_magic_number =
    b'm' ∷ b'a' ∷ b'g' ∷ b'i' ∷ b'c' ∷ b'_' ∷ b'n' ∷ b'u' ∷ b'm' ∷ b'b' ∷ b'e' ∷ b'r' ∷ []

abbrev key_max_recv_size : Bytes
key_max_recv_size =
    b'm' ∷ b'a' ∷ b'x' ∷ b'_' ∷ b'r' ∷ b'e' ∷ b'c' ∷ b'v' ∷ b'_' ∷ b's' ∷ b'i' ∷ b'z' ∷ b'e' ∷ []

abbrev key_max_connections : Bytes
key_max_connections =
    b'm' ∷ b'a' ∷ b'x' ∷ b'_' ∷ b'c' ∷ b'o' ∷ b'n' ∷ b'n' ∷ b'e' ∷ b'c' ∷ b't' ∷ b'i' ∷ b'o' ∷ b'n'
    ∷ b's' ∷ []

abbrev key_idle_timeout : Bytes
key_idle_timeout =
    b'i' ∷ b'd' ∷ b'l' ∷ b'e' ∷ b'_' ∷ b't' ∷ b'i' ∷ b'm' ∷ b'e' ∷ b'o' ∷ b'u' ∷ b't' ∷ []

abbrev key_transport_timeout : Bytes
key_transport_timeout =
    b't' ∷ b'r' ∷ b'a' ∷ b'n' ∷ b's' ∷ b'p' ∷ b'o' ∷ b'r' ∷ b't' ∷ b'_' ∷ b't' ∷ b'i' ∷ b'm' ∷ b'e'
    ∷ b'o' ∷ b'u' ∷ b't' ∷ []

abbrev header_server : Bytes
header_server = b'[' ∷ b's' ∷ b'e' ∷ b'r' ∷ b'v' ∷ b'e' ∷ b'r' ∷ b']' ∷ []

abbrev header_field : Bytes
header_field = b'[' ∷ b'f' ∷ b'i' ∷ b'e' ∷ b'l' ∷ b'd' ∷ b']' ∷ []

abbrev header_formula : Bytes
header_formula = b'[' ∷ b'f' ∷ b'o' ∷ b'r' ∷ b'm' ∷ b'u' ∷ b'l' ∷ b'a' ∷ b']' ∷ []

module _ {F : Type 0} where
  -- A setting whose value is a number.
  abbrev set_number : Bytes → Bytes × Bytes → (ℕ → Meta F) → Meta F → Outcome (Meta F)
  set_number key seg f meta = if same seg.0 key then (digit seg.1 >>= λ n. ok (f n)) else ok meta

  -- One line of the section [server].
  unfoldable pub apply_pair : Bytes × Bytes → Meta F → Outcome (Meta F)
  apply_pair seg m = set_number key_port seg (λ n. record m { port = n }) m >>= λ m.
      ok (if same seg.0 key_dump_file then record m { dump_file = seg.1 } else m) >>= λ m.
      set_number key_magic_number seg (λ n. record m { magic_number = n }) m >>= λ m.
      set_number key_max_recv_size seg (λ n. record m { max_recv_size = n }) m >>= λ m.
      set_number key_max_connections seg (λ n. record m { max_connections = n }) m >>= λ m.
      set_number key_idle_timeout seg (λ n. record m { idle_timeout = n }) m >>= λ m.
      set_number key_transport_timeout seg (λ n. record m { transport_timeout = n }) m

  unfoldable pub apply_settings : List Bytes → Meta F → Outcome (Meta F)
  unfolding apply_pair
  apply_settings [] m = ok m
  apply_settings (s ∷ ss) m = elim (two (strsplit s b'=')) [
    | none ↦ apply_settings ss m
    | some seg ↦ apply_pair seg m >>= λ m'. apply_settings ss m'
  ]

  -- The section [field].
  unfoldable pub add_fields : List Bytes → Meta F → Outcome (Option (Meta F))
  add_fields [] m = ok (some m)
  add_fields (s ∷ ss) m = tofield s >>= λ f. elim f [
    | none ↦ ok none
    | some f' ↦ elim (add_field m f') [ none ↦ ok none | some m' ↦ add_fields ss m' ]
  ]

  -- The names of a formula become field numbers, and each field learns that `id` depends on it.
  unfoldable pub resolve : ℕ → Expression F → Meta F → Option (Expression F × Meta F)
  resolve id [] m = some ([], m)
  resolve id (x ∷ xs) m = elim (is_kind x.type kname) [
    | false ↦ elim (resolve id xs m) [ none ↦ none | some r ↦ some (x ∷ r.0, r.1) ]
    | true ↦ elim (find_id x.vs m.fname_id) [
      | none ↦ none
      | some i ↦
          elim (resolve id xs (record m {
            fields = update_field i (λ f. record f { decide = f.decide ++ id ∷ [] }) m.fields;
          })) [ none ↦ none | some r ↦ some (record x { type = kid; id = i } ∷ r.0, r.1) ]
    ]
  ]

-- A refused text stops the start; undefined behaviour and an endless loop stay what they are.
abbrev or_false {ℓ} : {A : Type ℓ} → Outcome A → Outcome (Option A)
or_false (ok a) = ok (some a)
or_false (err m) = ok none
or_false ub = ub
or_false hang = hang

module _ (D : Double) where
  open D use {F}

  -- The formula of field `id` behind what the field has as its formula already.
  unfoldable pub set_formula : Meta F → ℕ → Field F → Bytes → Outcome (Option (Meta F))
  unfolding resolve
  set_formula m id fd text =
      or_false (
        load_loop D (length text) (reverse fd.formula) text >>= λ ex.
        check_expression ex >>= λ _. ok ex)
      >>= λ r. ok (elim r [
        | none ↦ none
        | some ex ↦ elim (resolve id ex m) [
          | none ↦ none
          | some (ex', m') ↦ some (record m' {
            fields = update_field id (λ f. record f { formula = ex'; rform = text }) m'.fields;
          })
        ]
      ])

  -- One line of the section [formula].
  unfoldable pub add_formula : Meta F → Bytes → Outcome (Option (Meta F))
  unfolding set_formula
  add_formula m s = elim (two (strsplit (tolower s) b'=')) [
    | none ↦ ok none
    | some seg ↦ elim (find_id seg.0 m.fname_id) [
      | none ↦ ok none
      | some id ↦ elim (get_elem? m.fields id) [
        | none ↦ ub
        | some fd ↦ if is_kind fd.type kchar then ok none else set_formula m id fd seg.1
      ]
    ]
  ]

  unfoldable pub add_formulas : List Bytes → Meta F → Outcome (Option (Meta F))
  unfolding add_formula
  add_formulas [] m = ok (some m)
  add_formulas (s ∷ ss) m =
      add_formula m s >>= λ r. elim r [ none ↦ ok none | some m' ↦ add_formulas ss m' ]

  -- The fields from `i` on, `n` of them.
  unfoldable pub any_circle : Meta F → ℕ → ℕ → ℕ → Outcome Bool
  any_circle m fuel i zero = ok false
  any_circle m fuel i (suc n) =
      has_circle m fuel i >>= λ c. elim c [ true ↦ ok true | false ↦ any_circle m fuel (suc i) n ]

  unfoldable pub load_config : ℕ → List Bytes → Meta F → Outcome (Option (Meta F))
  unfolding clean_lines section apply_settings add_fields add_formulas any_circle
  load_config fuel lines m =
      let conf = clean_lines lines in
      apply_settings (section conf header_server) m >>= λ m₁.
      add_fields (section conf header_field) m₁ >>= λ r. elim r [
        | none ↦ ok none
        | some m₂ ↦ add_formulas (section conf header_formula) (layout m₂) >>= λ r'. elim r' [
          | none ↦ ok none
          | some m₃ ↦
              any_circle m₃ fuel 0 (length m₃.fields) >>= λ c. ok (if c then none else some m₃)
        ]
      ]
