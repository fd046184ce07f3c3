-- ===== src/Client.antt =====
-- client.h and client.cc: what the client knows of the fields, and the bytes of its requests. The socket
-- is not modelled: a request is the bytes that are handed to `Send`. `printf` is left out.
pub mod Column
pub mod Get
pub mod Update
use stoxdb.Prelude.{ℕ, suc, List, [], ◌∷◌, ◌++◌, if◌then◌else◌, Option, none, some}
use stoxdb.Prelude.Int.{ℤ, pos}
use stoxdb.Base.{Bytes, same}
use stoxdb.Base.Bytes.{setint4}
use stoxdb.Expression.{Kind}
use stoxdb.Meta.{Field}

-- `struct Simple`.
pub record Simple : Type 0 where
  pub id : ℕ
  pub type : Kind
  pub sz : ℕ

-- The pairs of `fname_map_`, the newest first, and `fields_`.
pub record Client (F : Type 0) : Type 0 where
  pub magic : ℤ
  pub fname_map : List (Bytes × Simple)
  pub fields : List (Field F)

unfoldable pub find_simple : Bytes → List (Bytes × Simple) → Option Simple
find_simple name [] = none
find_simple name ((n, s) ∷ m) = if same n name then some s else find_simple name m

-- `getid`; `none` stands for the id -1.
unfoldable pub getid : {F : Type 0} → Client F → Bytes → Option Simple
unfolding find_simple
getid c name = find_simple name c.fname_map

-- The loop of `UpdateFields` from the field with number `i` on.
unfoldable pub map_fields :
    {F : Type 0} → ℕ → List (Field F) → List (Bytes × Simple) → List (Bytes × Simple)
map_fields i [] m = m
map_fields i (f ∷ fs) m =
    map_fields (suc i) fs ((f.name, record { id = i; type = f.type; sz = f.size }) ∷ m)

-- `UpdateFields`, with the fields that `Column` read.
unfoldable pub update_fields : {F : Type 0} → Client F → List (Field F) → Client F
unfolding map_fields
update_fields c fields = record c { fields = fields; fname_map = map_fields 0 fields [] }

-- `SetHeader`: the magic number, the size of what follows, and the operation.
unfoldable pub set_request_header : {F : Type 0} → Client F → ℕ → ℕ → Bytes
set_request_header c size opt = setint4 c.magic ++ setint4 (pos size) ++ setint4 (pos opt)
