-- ===== src/Client/Column.antt =====
-- client.cc: the loop of `Client::Column` over the body of the answer.
use stoxdb.Prelude.{ℕ, zero, suc, List, [], ◌∷◌}
use stoxdb.Prelude.Int.{ℤ}
use stoxdb.Outcome.{Outcome, ok, hang, ◌>>=◌}
use stoxdb.Base.{Bytes}
use stoxdb.Base.Bytes.{getint1, getint2, getchar1}

-- What is set of a field: the number of its type, its size and its name.
pub record Column : Type 0 where
  pub type : ℤ
  pub size : ℤ
  pub name : Bytes

unfoldable pub read_column : Bytes → Outcome (Column × Bytes)
read_column p = do
  type ← getint1 p
  size ← getint2 type.1
  name ← getchar1 size.1
  ok (record { type = type.0; size = size.0; name = name.0 }, name.1)

-- `while (p - data_ < size_)`, on fuel, over the bytes of the body.
unfoldable pub column_loop : ℕ → Bytes → Outcome (List Column)
column_loop zero [] = ok []
column_loop zero (b ∷ p) = hang
column_loop (suc n) [] = ok []
column_loop (suc n) (b ∷ p) = read_column (b ∷ p) >>= λ r. column_loop n r.1 >>= λ cs. ok (r.0 ∷ cs)
