-- ===== src/Record/Set/Endless.antt =====
-- record.cc: `opt_set` on a record that announces a negative length.
use stoxdb.Prelude.{
  ℕ, zero, suc, ◌+◌, ◌^◌, lt→ltb, ◌<◌, ◌++◌, true, false, ◌≡◌, refl, ap, ◌∙◌, length, drop-length,
  arith, length-append,
}
use stoxdb.Prelude.Int.{ℤ, pos, negsuc, ◌+ℤ◌, ◌-ℤ◌}
use stoxdb.Outcome.{ok, hang, ◌>>=◌}
use stoxdb.Double.{Double}
use stoxdb.Base.{Bytes}
use stoxdb.Base.Bytes.{setint4, setchar2}
use stoxdb.Base.Bytes.Roundtrip.{InRange, getint-setint, getchar-setchar, length-setint}
use stoxdb.Meta.{Meta}
use stoxdb.Record.Store.{Data, setone}
use stoxdb.Record.Set.{Round, is_more, index_of, move, update_record, set_record, set_records}
use stoxdb.Record.Set.Frames.{set_records-step, length-setchar2}

-- Four bytes back from behind the length and the key: the start of the record.
back_size : (k : ℕ) → negsuc 3 -ℤ pos 2 -ℤ pos k ≡ negsuc (5 + k)
unfolding ◌-ℤ◌
back_size k = ground arith

move-back : (p k q : ℕ) → p ≡ q + 6 + k → move p (negsuc (5 + k)) ≡ ok q
unfolding ◌+ℤ◌
move-back p k q e = rw e (ground arith)

module _ (D : Double) (meta : Meta D.F) (levels : ℕ) where
  setone-long :
      (m : Data) (key byte : Bytes) (size : ℤ)
      → 64 < length key
      → setone D meta levels m key byte size ≡ ok (false, m)
  unfolding setone
  setone-long m key byte size h = rw (lt→ltb 64 (length key) h)

  update_record-back :
      (buff rest key : Bytes) (s : Round)
      → 64 < length key
      → index_of buff rest ≡ s.at + 6 + length key
      → update_record D meta levels buff s (negsuc 3) (key, rest) ≡ ok s
  unfolding update_record
  update_record-back buff rest key s h e = rw (
    back_size (length key),
    setone-long s.records key rest (negsuc (5 + length key)) h,
    move-back (index_of buff rest) (length key) s.at e,
  )

  -- A record that announces -4 bytes and has a key of more than 64 bytes.
  set_record-back :
      (pre rest key : Bytes) (m : Data) (n : ℕ)
      → 64 < length key
      → length key < 256 ^ 2
      → set_record D meta levels
          (pre ++ (setint4 (negsuc 3) ++ (setchar2 key ++ rest)))
          (record { at = length pre; records = m; made = n })
        ≡ ok (record { at = length pre; records = m; made = n })
  unfolding set_record
  set_record-back pre rest key m n h l =
      let buff = pre ++ (setint4 (negsuc 3) ++ (setchar2 key ++ rest)) in
      let behind : index_of buff rest ≡ length pre + 6 + length key = omega (
        arith,
        length-append pre (setint4 (negsuc 3) ++ (setchar2 key ++ rest)),
        length-append (setint4 (negsuc 3)) (setchar2 key ++ rest),
        length-append (setchar2 key) rest,
        length-setint 4 (negsuc 3),
        length-setchar2 key l,
      ) in
      let four : InRange (2 ^ 31) (negsuc 3) = omega arith in
      rw
        (
          drop-length pre (setint4 (negsuc 3) ++ (setchar2 key ++ rest)),
          getint-setint 4 (2 ^ 31) (negsuc 3) (setchar2 key ++ rest) refl four,
          getchar-setchar 2 key rest l,
        )
        (update_record-back buff rest key _ h behind)

  -- A SET request whose record announces -4 bytes and has a key of more than 64 bytes is never done: the
  -- loop of `opt_set` comes back to the same record with nothing changed, however long it runs.
  pub set_records-endless :
      (fuel : ℕ) (pre rest key : Bytes) (limit : ℤ) (m : Data) (n : ℕ)
      → 64 < length key
      → length key < 256 ^ 2
      → is_more (length pre) limit ≡ true
      → set_records D meta levels fuel
          (pre ++ (setint4 (negsuc 3) ++ (setchar2 key ++ rest)))
          limit
          (record { at = length pre; records = m; made = n })
        ≡ hang
  unfolding set_records
  set_records-endless zero pre rest key limit m n h l e = rw (set_records, e)
  set_records-endless (suc fuel) pre rest key limit m n h l e =
      let buff = pre ++ (setint4 (negsuc 3) ++ (setchar2 key ++ rest)) in
      set_records-step D meta levels fuel buff limit _ e
      ∙ ap (λ o. o >>= λ t. set_records D meta levels fuel buff limit t)
          (set_record-back pre rest key m n h l)
      ∙ set_records-endless fuel pre rest key limit m n h l e
