-- ===== src/Server/Received.antt =====
-- server.cc: the header of a request, and the pieces of it that have arrived.
use stoxdb.Prelude.{
  ℕ, ◌+◌, ◌^◌, ◌≤◌, ◌<◌, ◌++◌, true, false, ◌==◌, ◌≡◌, refl, some, length, arith, length-append,
  lt→ltb, le→ltb,
}
use stoxdb.Prelude.Int.{ℤ, pos, negsuc}
use stoxdb.Outcome.{ok}
use stoxdb.Base.{Bytes}
use stoxdb.Base.Bytes.{setint, setint4, getint, to_word}
use stoxdb.Base.Bytes.Roundtrip.{InRange, getint-setint, length-le_bytes}
use stoxdb.Buffer.{int_limit}
use stoxdb.Server.{Header, Limits, header_size, read_header, check_header, eq_ℤ}
use stoxdb.Prelude.Int.{ℤ, pos, negsuc}
use stoxdb.Outcome.{ok}
use stoxdb.Base.{Bytes}
use stoxdb.Base.Bytes.{setint, setint4, getint, to_word}
use stoxdb.Base.Bytes.Roundtrip.{InRange, getint-setint, length-le_bytes}
use stoxdb.Buffer.{int_limit}
use stoxdb.Server.{Header, Limits, header_size, read_header, check_header, eq_ℤ}

-- The bytes of a request.
abbrev pub request_bytes : Header → Bytes → Bytes
request_bytes h body = setint4 h.magic ++ (setint4 h.size ++ (setint4 h.opt ++ body))

abbrev Fits32 : ℤ → Type 0
Fits32 v = InRange (2 ^ 31) v

read_four : (v : ℤ) (rest : Bytes) → Fits32 v → getint 4 (setint4 v ++ rest) ≡ ok (v, rest)
read_four v rest h = getint-setint 4 (2 ^ 31) v rest refl h

-- A header, written field by field, is read back.
pub read_header-request_bytes :
    (h : Header) (body : Bytes)
    → InRange (2 ^ 31) h.magic
    → InRange (2 ^ 31) h.size
    → InRange (2 ^ 31) h.opt
    → read_header (request_bytes h body) ≡ ok h
unfolding read_header
read_header-request_bytes h body a b c = rw (
  read_four h.magic (setint4 h.size ++ (setint4 h.opt ++ body)) a,
  read_four h.size (setint4 h.opt ++ body) b,
  read_four h.opt body c,
)

pub nonzero : (n : ℕ) → 0 < n → (n == 0) ≡ false
nonzero n h = ground arith

length-setint4 : (v : ℤ) → length (setint4 v) ≡ 4
unfolding setint
length-setint4 v = length-le_bytes 4 (to_word 4 v)

pub length-request_bytes :
    (h : Header) (body : Bytes) → length (request_bytes h body) ≡ 12 + length body
length-request_bytes h body = omega (
  arith,
  length-append (setint4 h.magic) (setint4 h.size ++ (setint4 h.opt ++ body)),
  length-append (setint4 h.size) (setint4 h.opt ++ body),
  length-append (setint4 h.opt) body,
  length-setint4 h.magic,
  length-setint4 h.size,
  length-setint4 h.opt,
)

-- A header that `check_header` lets pass.
abbrev pub Admits : Limits → Header → ℕ → Type 0
Admits l h size =
    InRange (2 ^ 31) h.magic
    × InRange (2 ^ 31) h.opt
    × (h.magic ≡ l.magic_number)
    × (h.size ≡ pos size)
    × (size + header_size ≤ l.max_recv_size)
    × (size + header_size < int_limit)

eq_ℤ-self : (a : ℤ) → eq_ℤ a a ≡ true
eq_ℤ-self (pos n) = ground arith
eq_ℤ-self (negsuc n) = ground arith

pub check_header-Admits :
    (l : Limits) (h : Header) (size : ℕ)
    → Admits l h size
    → check_header l h ≡ ok (some (size + header_size))
unfolding check_header
check_header-Admits l h size (a, b, c, d, e, f) = rw (
  c,
  eq_ℤ-self l.magic_number,
  d,
  lt→ltb (size + header_size) int_limit f,
  le→ltb l.max_recv_size (size + header_size) e,
)
