-- ===== src/Expression/Lexer.antt =====
-- `get_double`, `get_name` and `load_expression` of expression.cc. A position in the text is the rest
-- of the text from there on; `ex` is kept last node first while it grows.
pub mod Progress
pub mod Ends
pub mod Numbers
use stoxdb.Prelude.{
  ℕ, zero, suc, ◌+◌, List, [], ◌∷◌, ◌++◌, reverse, Bool, true, false, ◌&&◌, ◌||◌, leb, ◌==◌,
  if◌then◌else◌, length,
}
use stoxdb.Prelude.Int.{pos}
use stoxdb.Outcome.{Outcome, ok, err, hang, ◌>>=◌, Message}
use stoxdb.Double.{Double}
use stoxdb.Expression.{
  Kind, kand, kor, kleft, kright, kadd, ksub, kmulti, kdiv, kmod, keq, kgt, kge, klt, kle, kne,
  klike, knlike, kname, kint8, kdouble, kchar, is_kind, Node, Expression,
}

abbrev pub between : ℕ → ℕ → ℕ → Bool
between lo hi c = leb lo c && leb c hi

-- `str[i] == c`, false at the end of the text.
abbrev pub next_is : ℕ → List ℕ → Bool
next_is c [] = false
next_is c (d ∷ ds) = d == c

abbrev pub rest_of : List ℕ → List ℕ
rest_of [] = []
rest_of (d ∷ ds) = ds

abbrev pub same_bytes : List ℕ → List ℕ → Bool
same_bytes [] [] = true
same_bytes [] (b ∷ ys) = false
same_bytes (a ∷ xs) [] = false
same_bytes (a ∷ xs) (b ∷ ys) = a == b && same_bytes xs ys

unfoldable pub to_lower : ℕ → ℕ
to_lower c = if between b'A' b'Z' c then c + 32 else c

unfoldable pub is_name_char : ℕ → Bool
is_name_char p = between b'a' b'z' p || between b'0' b'9' p || p == b'_'

unfoldable pub get_name : List ℕ → List ℕ × List ℕ
unfolding to_lower is_name_char
get_name [] = ([], [])
get_name (c ∷ cs) =
    let more = get_name cs in
    if is_name_char (to_lower c) then (to_lower c ∷ more.0, more.1) else ([], c ∷ cs)

-- The text of a string literal and what follows its closing quote. Without a closing quote the
-- literal is empty and the text is used up.
unfoldable pub get_quoted : List ℕ → List ℕ → List ℕ × List ℕ
get_quoted vs [] = ([], [])
get_quoted vs (c ∷ cs) =
    let more = get_quoted (vs ++ c ∷ []) cs in if c == b'\'' then (vs, cs) else more

-- The fuel for the loop that scales a fraction.
unfoldable pub scale_fuel : ℕ
scale_fuel = 400

module _ (D : Double) where
  open D use {F, of_int, add, sub, mul, div, lt, eq}

  abbrev pub int_d : ℕ → F
  int_d n = of_int (pos n)

  abbrev pub node : Kind → Node F
  node k = record { type = k; id = 0; vd = int_d 0; vs = [] }

  unfoldable pub scan_digits : F → List ℕ → F × List ℕ
  scan_digits a [] = (a, [])
  scan_digits a (c ∷ cs) =
      let more = scan_digits (sub (add (mul a (int_d 10)) (int_d c)) (int_d b'0')) cs in
      if between b'0' b'9' c then more else (a, c ∷ cs)

  -- `while (b >= 1) b /= 10`, on fuel: a finite double is below one after 309 rounds.
  unfoldable pub scale : ℕ → F → Outcome F
  scale zero b = hang
  scale (suc n) b = elim (lt (int_d 1) b || eq (int_d 1) b) [
    | true ↦ scale n (div b (int_d 10))
    | false ↦ ok b
  ]

  -- What stands behind the integer part: the digits of the fraction read as an integer, the kind of
  -- the number, and the rest of the text.
  unfoldable pub fraction : List ℕ → F × Kind × List ℕ
  fraction rest =
      let digits = scan_digits (int_d 0) (rest_of rest) in
      if next_is b'.' rest then (digits.0, kdouble, digits.1) else (int_d 0, kint8, rest)

  unfoldable pub get_double : List ℕ → Outcome (F × Kind × List ℕ)
  get_double str =
      let whole = scan_digits (int_d 0) str in
      let part = fraction whole.1 in
      (scale scale_fuel part.0 >>= λ b. ok (add whole.0 b, part.1, part.2))

  abbrev pub last_is_operand : Expression F → Bool
  last_is_operand [] = false
  last_is_operand (x ∷ ex) = is_kind x.type kname || is_kind x.type kright

  -- A keyword or the name of a field.
  unfoldable pub word : List ℕ → Node F
  word name =
      if same_bytes name (b'l' ∷ b'i' ∷ b'k' ∷ b'e' ∷ [])
      then node klike
      else if same_bytes name (b'n' ∷ b'o' ∷ b't' ∷ b'l' ∷ b'i' ∷ b'k' ∷ b'e' ∷ [])
      then node knlike
      else if same_bytes name (b'a' ∷ b'n' ∷ b'd' ∷ [])
      then node kand
      else if same_bytes name (b'o' ∷ b'r' ∷ [])
      then node kor
      else record (node kname) { vs = name }

  -- A comparison sign with or without `=` behind it.
  unfoldable pub compare_sign : Expression F → Kind → Kind → List ℕ → Expression F × List ℕ
  compare_sign ex with_eq alone cs =
      if next_is b'=' cs then (node with_eq ∷ ex, rest_of cs) else (node alone ∷ ex, cs)

  -- At `-`: a subtraction behind a name or a right bracket, the sign of a number elsewhere.
  unfoldable pub load_minus : Expression F → List ℕ → Outcome (Expression F × List ℕ)
  unfolding get_double
  load_minus ex cs =
      if last_is_operand ex
      then ok (node ksub ∷ ex, cs)
      else (get_double cs >>= λ d. ok (record (node d.1) { vd = sub (int_d 0) d.0 } ∷ ex, d.2))

  -- The body of the loop, at the character `c` with `cs` behind it.
  unfoldable pub load_token : Expression F → ℕ → List ℕ → Outcome (Expression F × List ℕ)
  unfolding get_name get_quoted word compare_sign load_minus
  load_token ex raw cs =
      let c = to_lower raw in
      if raw == b' ' || raw == b'\t' || raw == b'\n'
      then ok (ex, cs)
      else if c == b'('
      then ok (node kleft ∷ ex, cs)
      else if c == b')'
      then ok (node kright ∷ ex, cs)
      else if c == b'+'
      then ok (node kadd ∷ ex, cs)
      else if c == b'-'
      then load_minus ex cs
      else if c == b'*'
      then ok (node kmulti ∷ ex, cs)
      else if c == b'/'
      then ok (node kdiv ∷ ex, cs)
      else if c == b'%'
      then ok (node kmod ∷ ex, cs)
      else if c == b'>'
      then ok (compare_sign ex kge kgt cs)
      else if c == b'<'
      then ok (compare_sign ex kle klt cs)
      else if c == b'='
      then ok (node keq ∷ ex, cs)
      else if c == b'!'
      then (if next_is b'=' cs
          then ok (node kne ∷ ex, rest_of cs)
          else err (Message.unexpected_char raw))
      else if between b'a' b'z' c
      then ok (word (get_name (raw ∷ cs)).0 ∷ ex, (get_name (raw ∷ cs)).1)
      else if between b'0' b'9' c
      then (get_double (raw ∷ cs) >>= λ d. ok (record (node d.1) { vd = d.0 } ∷ ex, d.2))
      else if c == b'\''
      then ok (record (node kchar) { vs = (get_quoted [] cs).0 } ∷ ex, (get_quoted [] cs).1)
      else err (Message.unexpected_char raw)

  unfoldable pub load_loop : ℕ → Expression F → List ℕ → Outcome (Expression F)
  unfolding load_token
  load_loop zero ex [] = ok (reverse ex)
  load_loop zero ex (c ∷ cs) = hang
  load_loop (suc n) ex [] = ok (reverse ex)
  load_loop (suc n) ex (c ∷ cs) = load_token ex c cs >>= λ r. load_loop n r.0 r.1

  -- A step uses up a character at least, so the length of the text is fuel enough.
  unfoldable pub load_expression : List ℕ → Outcome (Expression F)
  unfolding load_loop
  load_expression str = load_loop (length str) [] str
