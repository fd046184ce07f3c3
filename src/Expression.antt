-- ===== src/Expression.antt =====
-- expression.h and the tests on `Type` at the top of expression.cc: the kinds of a node, the node,
-- and an expression as a list of nodes. `F` stands for `double`.
pub mod Lexer
pub mod Check
pub mod Computer
use stoxdb.Prelude.{ℕ, List, Bool, ◌&&◌, ◌||◌, leb, ◌==◌}

-- `enum Type`.
pub data Kind : Type 0 where
  kand kor kleft kright kadd ksub kmulti kdiv kmod : Kind
  keq kgt kge klt kle kne klike knlike : Kind
  kname kid kint1 kint2 kint4 kint8 kfloat kdouble kchar kexpr kerror : Kind

-- The number of an enumerator: `kand = 1` and the others after it.
unfoldable pub ordinal : Kind → ℕ
ordinal kand = 1
ordinal kor = 2
ordinal kleft = 3
ordinal kright = 4
ordinal kadd = 5
ordinal ksub = 6
ordinal kmulti = 7
ordinal kdiv = 8
ordinal kmod = 9
ordinal keq = 10
ordinal kgt = 11
ordinal kge = 12
ordinal klt = 13
ordinal kle = 14
ordinal kne = 15
ordinal klike = 16
ordinal knlike = 17
ordinal kname = 18
ordinal kid = 19
ordinal kint1 = 20
ordinal kint2 = 21
ordinal kint4 = 22
ordinal kint8 = 23
ordinal kfloat = 24
ordinal kdouble = 25
ordinal kchar = 26
ordinal kexpr = 27
ordinal kerror = 28

-- `type == k`.
unfoldable pub is_kind : Kind → Kind → Bool
unfolding ordinal
is_kind t k = ordinal t == ordinal k

unfoldable pub is_compare_type : Kind → Bool
unfolding ordinal
is_compare_type t = leb (ordinal keq) (ordinal t) && leb (ordinal t) (ordinal kne)

unfoldable pub is_like_type : Kind → Bool
unfolding is_kind
is_like_type t = is_kind t klike || is_kind t knlike

unfoldable pub is_four_type : Kind → Bool
unfolding ordinal
is_four_type t = leb (ordinal kadd) (ordinal t) && leb (ordinal t) (ordinal kmod)

unfoldable pub is_logical_type : Kind → Bool
unfolding is_kind
is_logical_type t = is_kind t kand || is_kind t kor

unfoldable pub is_digit_type : Kind → Bool
unfolding ordinal
is_digit_type t = leb (ordinal kint1) (ordinal t) && leb (ordinal t) (ordinal kdouble)

-- `struct Node`.
pub record Node (F : Type 0) : Type 0 where
  pub type : Kind
  pub id : ℕ
  pub vd : F
  pub vs : List ℕ

-- `vector<Node*>`; the nodes are never shared between two expressions.
abbrev pub Expression : Type 0 → Type 0
Expression F = List (Node F)
