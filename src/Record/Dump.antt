-- ===== src/Record/Dump.antt =====
-- record.cc: `dump`, `opt_dump` and `load`. The file is its bytes. A file that ends inside a record is not
-- modelled: to read on counts as undefined behaviour.
pub mod Roundtrip
use stoxdb.Prelude.{
  ℕ, zero, suc, ◌+◌, ◌-◌, List, [], ◌∷◌, ◌++◌, ltb, if◌then◌else◌, length, replicate, Bool, true,
  Option, none, some,
}
use stoxdb.Prelude.Int.{pos, negsuc}
use stoxdb.Outcome.{Outcome, ok, ub, hang, ◌>>=◌}
use stoxdb.Base.{Bytes}
use stoxdb.Base.Bytes.{read_bytes, getint2, getint4, setint2, setint4}
use stoxdb.Server.{Buffers}
use stoxdb.Record.Reply.{status_ok, reply}
use stoxdb.Record.Store.{Data, put_record}

-- One record of the file; as many bytes as a record has are written.
unfoldable pub dump_record : ℕ → Bytes → Bytes → Outcome Bytes
dump_record size key v = read_bytes size v >>= λ r.
    ok (setint2 (pos (length key)) ++ (key ++ (setint4 (pos size) ++ r.0)))

unfoldable pub dump_loop : ℕ → Data → Outcome Bytes
dump_loop size [] = ok []
dump_loop size ((k, v) ∷ m) =
    dump_record size k v >>= λ bs. dump_loop size m >>= λ rest. ok (bs ++ rest)

-- `opt_dump`, with `dump` in it: the answer, and the file where it could be opened.
unfoldable pub opt_dump : Bool → ℕ → Data → Buffers → Outcome (Bool × Buffers × Option Bytes)
opt_dump opened size m b =
    if opened
    then (dump_loop size m >>= λ file. reply status_ok (setint4 (pos (length m))) b.1 >>= λ send.
        ok (true, (b.0, send), some file))
    else (reply status_ok (setint4 (negsuc 0)) b.1 >>= λ send. ok (true, (b.0, send), none))

-- `char buf[32]`.
abbrev pub key_space : ℕ
key_space = 32

-- A key, read into a space of 32 bytes.
unfoldable pub load_key : Bytes → Outcome (Bytes × Bytes)
load_key p = getint2 p >>= λ k. elim k.0 [
  | negsuc n ↦ ub
  | pos n ↦ if ltb key_space n then ub else read_bytes n k.1
]

-- A value, read into a new record of zero bytes.
unfoldable pub load_value : ℕ → Bytes → Outcome (Bytes × Bytes)
load_value size p = getint4 p >>= λ k. elim k.0 [
  | negsuc n ↦ ub
  | pos n ↦
      if ltb size n then ub else (read_bytes n k.1 >>= λ v. ok (v.0 ++ replicate (size - n) 0, v.1))
]

unfoldable pub load_record : ℕ → Data → Bytes → Outcome (Data × Bytes)
load_record size m p =
    load_key p >>= λ k. load_value size k.1 >>= λ v. ok (put_record k.0 v.0 m, v.1)

-- The loop of `load`, on fuel, up to the end of the file.
unfoldable pub load : ℕ → ℕ → Data → Bytes → Outcome Data
load size n m [] = ok m
load size zero m (b ∷ p) = hang
load size (suc n) m (b ∷ p) = load_record size m (b ∷ p) >>= λ r. load size n r.0 r.1
