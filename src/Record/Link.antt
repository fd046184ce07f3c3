-- ===== src/Record/Link.antt =====
-- record.cc: `expression_type`, `change_fname_to_fid` and `load_and_check_logical`, which make the names
-- in a condition the numbers of fields. `kerror` stands for a failure with the message set.
pub mod Resolved
use stoxdb.Prelude.{
  ℕ, List, [], ◌∷◌, Bool, true, false, ◌&&◌, ◌||◌, not, leb, ◌==◌, if◌then◌else◌, length, Option,
  none, some,
}
use stoxdb.Outcome.{Outcome, ok, err, ◌>>=◌, Message}
use stoxdb.Double.{Double}
use stoxdb.Base.{Bytes}
use stoxdb.Expression.{
  Kind, kname, kint1, kint8, kfloat, kdouble, kchar, is_kind, ordinal, is_compare_type,
  is_like_type, Node, Expression,
}
use stoxdb.Logical.{LogicalNode, Logical, load_logical}
use stoxdb.Logical.Check.{check_logical}
use stoxdb.Meta.{Meta, getid}
use stoxdb.Record.{field_at}

-- `has_double`, `has_int` and `has_string`.
pub record Has : Type 0 where
  pub double : Bool
  pub int : Bool
  pub string : Bool

unfoldable pub note_kind : Kind → Has → Has
note_kind t h =
    if is_kind t kchar
    then record h { string = true }
    else if is_kind t kfloat || is_kind t kdouble
    then record h { double = true }
    else if leb (ordinal kint1) (ordinal t) && leb (ordinal t) (ordinal kint8)
    then record h { int = true }
    else h

-- The type of the expression.
unfoldable pub type_of_has : Has → Outcome Kind
type_of_has h =
    if h.string
    then (if h.int || h.double then err Message.both_number_and_string else ok kchar)
    else if h.int
    then ok (if h.double then kdouble else kint8)
    else if h.double
    then ok kdouble
    else err Message.neither_number_nor_string

abbrev pub refuse : Bool → Message → Outcome (Unit {0})
refuse b m = if b then err m else ok tt

-- Whether it is a LIKE, whether each side is a string, and whether each side is one node.
unfoldable pub check_sides : Bool → Bool → Bool → Bool → Outcome (Unit {0})
check_sides like l r single = refuse (like && not (l && r)) Message.like_not_string_field >>= λ _.
    refuse (like && not single) Message.like_not_one_field >>= λ _.
    refuse (l && not r || not l && r) Message.different_type >>= λ _.
    refuse (l && r && not single) Message.string_not_one_field

abbrev pub is_one : {F : Type 0} → Expression F → Bool
is_one ex = length ex == 1

abbrev pub side_type : Kind → Kind → Kind
side_type left right =
    if is_kind left kchar
    then kchar
    else if is_kind left kdouble || is_kind right kdouble
    then kdouble
    else kint8

module _ {F : Type 0} (meta : Meta F) where
  unfoldable pub link_name : Node F → Option ℕ → Outcome (Node F × Kind)
  link_name x none = err (Message.cannot_find_field x.vs)
  link_name x (some id) = field_at meta.fields id >>= λ f. ok (record x { id = id }, f.type)

  -- One node: the node with its number, and its kind.
  unfoldable pub link_node : Node F → Outcome (Node F × Kind)
  link_node x = if is_kind x.type kname then link_name x (getid meta x.vs) else ok (x, x.type)

  unfoldable pub link_loop : Has → Expression F → Outcome (Expression F × Has)
  link_loop h [] = ok ([], h)
  link_loop h (x ∷ xs) =
      link_node x >>= λ r. link_loop (note_kind r.1 h) xs >>= λ s. ok (r.0 ∷ s.0, s.1)

  -- The expression with its numbers, and its type.
  unfoldable pub expression_type : Expression F → Outcome (Expression F × Kind)
  expression_type ex =
      link_loop (record { double = false; int = false; string = false }) ex >>= λ r.
      type_of_has r.1 >>= λ t. ok (r.0, t)

  -- The tests on the types of both sides.
  unfoldable pub check_types : LogicalNode F → Kind → Kind → Outcome (Unit {0})
  check_types x left right =
      check_sides (is_like_type x.type) (is_kind left kchar) (is_kind right kchar)
        (is_one x.left && is_one x.right)

  -- One comparison or LIKE; other nodes stay as they are.
  unfoldable pub link_logical : LogicalNode F → Outcome (LogicalNode F)
  link_logical x =
      if is_compare_type x.type || is_like_type x.type
      then (expression_type x.left >>= λ l. expression_type x.right >>= λ r.
          let y = record x { left = l.0; right = r.0 } in
          check_types y l.1 r.1 >>= λ _. ok (record y { extype = some (side_type l.1 r.1) }))
      else ok x

  unfoldable pub change_fname_to_fid : Logical F → Outcome (Logical F)
  change_fname_to_fid [] = ok []
  change_fname_to_fid (x ∷ xs) =
      link_logical x >>= λ y. change_fname_to_fid xs >>= λ ys. ok (y ∷ ys)

-- `load_and_check_logical`.
unfoldable pub load_and_check_logical : (D : Double) → Meta D.F → Bytes → Outcome (Logical D.F)
load_and_check_logical D meta text =
    load_logical D text >>= λ lg. check_logical lg >>= λ _. change_fname_to_fid meta lg
