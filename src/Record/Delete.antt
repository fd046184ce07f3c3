-- ===== src/Record/Delete.antt =====
-- record.cc: `opt_del`.
use stoxdb.Prelude.{ℕ, suc, ◌+◌, List, [], ◌∷◌, Bool, true, if◌then◌else◌}
use stoxdb.Prelude.Int.{pos}
use stoxdb.Outcome.{Outcome, ok, ◌>>=◌, Message}
use stoxdb.Double.{Double}
use stoxdb.Base.{Bytes, same}
use stoxdb.Base.Bytes.{setint4}
use stoxdb.Meta.{Meta}
use stoxdb.Server.{Buffers}
use stoxdb.Record.Where.{compute_logical}
use stoxdb.Record.Store.{Data}
use stoxdb.Record.Request.{Request, parse_del_request}
use stoxdb.Record.Link.{load_and_check_logical}
use stoxdb.Record.Reply.{status_ok, reply}
use stoxdb.Record.Get.{answer_error, or_error}

-- `data_.erase(key)`: how many were removed, and the map.
unfoldable pub erase_key : Bytes → Data → ℕ × Data
erase_key key [] = (0, [])
erase_key key ((k, v) ∷ m) =
    let rest = erase_key key m in if same k key then (1, m) else (rest.0, (k, v) ∷ rest.1)

unfoldable pub erase_keys : List Bytes → Data → ℕ × Data
erase_keys [] m = (0, m)
erase_keys (k ∷ ks) m =
    let one = erase_key k m in let rest = erase_keys ks one.1 in (one.0 + rest.0, rest.1)

-- The loop that erases what passes a test.
unfoldable pub erase_if : (Bytes → Outcome Bool) → Data → Outcome (ℕ × Data)
erase_if test [] = ok (0, [])
erase_if test ((k, v) ∷ m) = test v >>= λ b.
    erase_if test m >>= λ rest. ok (if b then (suc rest.0, rest.1) else (rest.0, (k, v) ∷ rest.1))

module _ (D : Double) (meta : Meta D.F) where
  -- By the keys, where there are some, or else by the condition, where there is one.
  unfoldable pub erase_records : Request → Data → Outcome (ℕ × Data)
  erase_records r m = elim r.keys [
    | k ∷ ks ↦ ok (erase_keys (k ∷ ks) m)
    | [] ↦ elim r.where_text [
      | [] ↦ ok (0, m)
      | c ∷ cs ↦ load_and_check_logical D meta (c ∷ cs) >>= λ lg.
          erase_if (λ v. compute_logical D meta.fields v lg) m
    ]
  ]

  unfoldable pub opt_del : (Message → Bytes) → Data → Buffers → Outcome (Bool × Buffers × Data)
  opt_del text m b =
      let fail : Message → Outcome (Bool × Buffers × Data) =
        λ e. answer_error text b e >>= λ r. ok (r.0, r.1, m) in
      or_error fail (parse_del_request (b.0).contents (b.0).size) λ r.
        or_error fail (erase_records r m)
          λ e. reply status_ok (setint4 (pos e.0)) b.1 >>= λ send. ok (true, (b.0, send), e.1)
