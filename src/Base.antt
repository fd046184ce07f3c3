-- ===== src/Base.antt =====
-- base.h and base.cc: texts as lists of bytes. A text that goes through `c_str()` ends at its first
-- zero byte.
pub mod Split
pub mod Match
pub mod Bytes
use stoxdb.Prelude.{
  ℕ, zero, suc, ◌+◌, ◌-◌, ◌*◌, ◌^◌, List, [], ◌∷◌, ◌++◌, reverse, map, Bool, true, false, ◌&&◌,
  ◌||◌, ltb, leb, ◌==◌, if◌then◌else◌, length, drop, Option, none, some,
}
use stoxdb.Outcome.{Outcome, ok, ub}

abbrev pub Bytes : Type 0
Bytes = List ℕ

-- `a == b` on strings.
unfoldable pub same : Bytes → Bytes → Bool
same [] [] = true
same [] (b ∷ bs) = false
same (a ∷ xs) [] = false
same (a ∷ xs) (b ∷ ys) = a == b && same xs ys

-- The index of the line that is `key`, counted from `i`.
unfoldable pub scanconf : ℕ → List Bytes → Bytes → Option ℕ
scanconf i [] key = none
scanconf i (s ∷ conf) key = if same s key then some i else scanconf (suc i) conf key

abbrev pub push_rest : Bytes → List Bytes
push_rest [] = []
push_rest (c ∷ s) = (c ∷ s) ∷ []

-- The loop of `strsplit` with the segment `s` read so far. What stands behind the last separator is
-- left out where it is empty.
unfoldable pub strsplit_loop : ℕ → Bytes → Bytes → List Bytes
strsplit_loop ch s [] = push_rest s
strsplit_loop ch s (c ∷ cs) = elim (c == 0) [
  | true ↦ push_rest s
  | false ↦ elim (c == ch) [
    | true ↦ s ∷ strsplit_loop ch [] cs
    | false ↦ strsplit_loop ch (s ++ c ∷ []) cs
  ]
]

unfoldable pub strsplit : Bytes → ℕ → List Bytes
strsplit str ch = strsplit_loop ch [] str

abbrev pub is_space : ℕ → Bool
is_space c = c == b' ' || c == b'\t' || c == b'\n' || c == b'\r' || c == 12 || c == 11

unfoldable pub drop_spaces : Bytes → Bytes
drop_spaces [] = []
drop_spaces (c ∷ cs) = if is_space c then drop_spaces cs else c ∷ cs

unfoldable pub trim : Bytes → Bytes
unfolding drop_spaces
trim str = reverse (drop_spaces (reverse (drop_spaces str)))

unfoldable pub lower_char : ℕ → ℕ
lower_char c = if leb b'A' c && leb c b'Z' then c + 32 else c

unfoldable pub tolower : Bytes → Bytes
unfolding lower_char
tolower = map lower_char

abbrev pub isopt : ℕ → Bool
isopt p = p == b'(' || p == b')' || p == b'+' || p == b'-' || p == b'*' || p == b'/'

abbrev pub isdigit : ℕ → Bool
isdigit p = leb b'0' p && leb p b'9'

abbrev pub isalpha : ℕ → Bool
isalpha p = leb b'a' p && leb p b'z' || leb b'A' p && leb p b'Z'

-- The number at the start of a text; an `int` that overflows is undefined behaviour.
unfoldable pub digit_loop : ℕ → Bytes → Outcome ℕ
digit_loop t [] = ok t
digit_loop t (c ∷ cs) = elim (isdigit c) [
  | true ↦ elim (ltb (t * 10 + c) (2 ^ 31)) [
    | true ↦ digit_loop (t * 10 + c - b'0') cs
    | false ↦ ub
  ]
  | false ↦ ok t
]

unfoldable pub digit : Bytes → Outcome ℕ
unfolding digit_loop
digit p = digit_loop 0 p

-- `str[i] == sub[i]` for each `i` below the length of `sub`.
unfoldable pub prefix_loop : Bytes → Bytes → Bool
prefix_loop str [] = true
prefix_loop [] (b ∷ sub) = false
prefix_loop (a ∷ str) (b ∷ sub) = a == b && prefix_loop str sub

unfoldable pub startwith : Bytes → Bytes → Bool
startwith str sub = if ltb (length str) (length sub) then false else prefix_loop str sub

unfoldable pub endwith : Bytes → Bytes → Bool
endwith str sub =
    if ltb (length str) (length sub)
    then false
    else prefix_loop (drop (length str - length sub) str) sub

-- `str.find(sub) != npos`.
unfoldable pub find : Bytes → Bytes → Bool
find [] sub = prefix_loop [] sub
find (a ∷ str) sub = prefix_loop (a ∷ str) sub || find str sub

unfoldable pub contain : Bytes → Bytes → Bool
contain str sub = if ltb (length str) (length sub) then false else find str sub
