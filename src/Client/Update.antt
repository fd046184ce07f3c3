-- ===== src/Client/Update.antt =====
-- client.cc: `begin`, `setkey`, `setvalue` and `end`, which build the body of a SET request. `malloc`
-- and `realloc` give the space; `begin_` points into the space and is lost where the space moves.
-- A read of the bytes behind `offset`, which are left from the request before, counts as undefined.
pub mod Framing
pub mod Session
pub mod Items
use stoxdb.Prelude.{
  ℕ, suc, ◌+◌, List, [], ◌∷◌, ◌++◌, Bool, true, false, ◌||◌, not, ltb, ◌==◌, if◌then◌else◌, length,
  drop, Option, none, some,
}
use stoxdb.Prelude.Int.{ℤ, pos, ◌+ℤ◌}
use stoxdb.Outcome.{Outcome, ok, ub, ◌>>=◌}
use stoxdb.Double.{Double}
use stoxdb.Base.{Bytes}
use stoxdb.Base.Bytes.{setint1, setint2, setint4, setint8, setchar2, getint4}
use stoxdb.Buffer.{Buffer, expand_buffer}
use stoxdb.Expression.{Kind, kint1, kint2, kint4, kint8, kfloat, kdouble, kchar, is_kind}
use stoxdb.Server.{header_size}
use stoxdb.Record.Store.{write_at}
use stoxdb.Client.{Client, Simple, getid, set_request_header}

-- The buffer behind the header, up to `offset`, and the index of `begin_`.
pub record Draft : Type 0 where
  pub capacity : ℕ
  pub body : Bytes
  pub begin : Option ℕ

unfoldable pub begin : Draft → Draft
begin d = record d { body = [] }

-- `expand_buffer`.
unfoldable pub reserve : ℕ → Draft → Outcome Draft
reserve n d =
    expand_buffer true
      (record {
        contents = d.body;
        capacity = d.capacity;
        offset = header_size + length d.body;
        size = 0;
      })
      (pos n)
    >>= λ e. ok (record d {
      capacity = e.1.capacity;
      begin = if e.1.capacity == d.capacity then d.begin else none;
    })

-- Bytes stored at `offset`, which moves behind them.
unfoldable pub write : Bytes → Draft → Outcome Draft
write bs d =
    if ltb d.capacity (header_size + length d.body + length bs)
    then ub
    else ok (record d { body = d.body ++ bs })

-- The length at `begin_`, raised.
unfoldable pub add_size : ℕ → Draft → Outcome Draft
add_size n d = elim d.begin [
  | none ↦ ub
  | some b ↦ do
    r ← getint4 (drop b d.body)
    body ← write_at b (setint4 (r.0 +ℤ pos n)) d.body
    ok (record d { body = body })
]

-- A key that is too long is passed over: what follows goes to the record before.
unfoldable pub setkey : Bytes → Draft → Outcome Draft
setkey k d = if ltb 64 (length k) then ok d else do
  e ← reserve (4 + (2 + length k)) d
  write (setint4 (pos (2 + length k)) ++ setchar2 k) (record e { begin = some (length e.body) })

-- What a call of `setvalue` announces and what it writes; `none` where it refuses.
abbrev pub Item : Type 0
Item = ℕ × Bytes

unfoldable pub put_item : Option Item → Draft → Outcome Draft
put_item none d = ok d
put_item (some (n, bs)) d = do e ← reserve n d; w ← write bs e; add_size n w

-- The bytes of an integer of a kind; for another kind none.
unfoldable pub kind_bytes : Kind → ℤ → Bytes
kind_bytes k v =
    if is_kind k kint1
    then setint1 v
    else if is_kind k kint2
    then setint2 v
    else if is_kind k kint4
    then setint4 v
    else if is_kind k kint8
    then setint8 v
    else []

unfoldable pub is_int_kind : Kind → Bool
is_int_kind k = is_kind k kint1 || is_kind k kint2 || is_kind k kint4 || is_kind k kint8

unfoldable pub text_of : Bytes → Option Simple → Option Item
text_of v none = none
text_of v (some sim) =
    if not (is_kind sim.type kchar) || ltb sim.sz (length v)
    then none
    else some (4 + length v, setint2 (pos sim.id) ++ setchar2 v)

unfoldable pub int_of : ℤ → Option Simple → Option Item
int_of v none = none
int_of v (some sim) =
    if is_int_kind sim.type
    then some (2 + sim.sz, setint2 (pos sim.id) ++ kind_bytes sim.type v)
    else none

module _ {F : Type 0} (c : Client F) where
  -- `setvalue` of a string.
  unfoldable pub text_item : Bytes → Bytes → Option Item
  text_item name v = text_of v (getid c name)

  -- `setvalue` of an integer.
  unfoldable pub int_item : Bytes → ℤ → Option Item
  int_item name v = int_of v (getid c name)

-- `setvalue` of a double: `setfloat` in both branches, four bytes.
unfoldable pub double_item : (D : Double) → Client D.F → Bytes → D.F → Option Item
double_item D c name v = elim (getid c name) [
  | none ↦ none
  | some sim ↦
      if is_kind sim.type kfloat || is_kind sim.type kdouble
      then some (2 + sim.sz, setint2 (pos sim.id) ++ D.to_float_bytes v)
      else none
]

abbrev pub opt_set_number : ℕ
opt_set_number = 11

-- `end` up to `Send`.
unfoldable pub finish : {F : Type 0} → Client F → Draft → Bytes
finish c d = set_request_header c (length d.body) opt_set_number ++ d.body
