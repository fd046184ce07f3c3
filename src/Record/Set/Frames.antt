-- ===== src/Record/Set/Frames.antt =====
-- record.cc: `opt_set` over the records of a request as a client writes them.
use native.Mathlib.Nat.{mod-eq_of_lt}
use stoxdb.Prelude.{
  ℕ, zero, suc, ◌+◌, ◌^◌, ◌≤◌, ◌<◌, List, [], ◌∷◌, ◌++◌, true, false, ltb, ◌≡◌, refl, sym, ap, ◌∙◌,
  length, drop-length, arith, length-append, append_assoc, append-nil, le→ltb, lt→ltb, subst,
}
use stoxdb.Prelude.Int.{ℤ, pos, ◌+ℤ◌, ◌-ℤ◌}
use stoxdb.Outcome.{Outcome, ok, ◌>>=◌, bind_assoc, Ensures-congr}
use stoxdb.Double.{Double}
use stoxdb.Base.{Bytes}
use stoxdb.Base.Bytes.{setint4, setchar2, setchar, le_bytes}
use stoxdb.Base.Bytes.Roundtrip.{
  getint-setint, getchar-setchar, length-setint, length-le_bytes, take-length,
}
use stoxdb.Meta.{Meta}
use stoxdb.Server.{header_size}
use stoxdb.Record.Store.{Data}
use stoxdb.Record.Set.{Round, is_more, index_of, move, update_record, set_record, set_records}
use stoxdb.Record.Set.Items.{
  Setting, setting_bytes, AreSettings, frame, store_entry, setone-settings,
}
use stoxdb.Record.Set.Lengths.{Sized}
use stoxdb.Record.Set.Sized.{old_record-Sized, store_entry-Sized}

-- A key and what is set of its record.
abbrev pub Entry : Type 0
Entry = Bytes × List Setting

unfoldable pub frames : List Entry → Bytes
frames [] = []
frames ((key, ss) ∷ es) = frame key (setting_bytes ss) ++ frames es

pub length-setchar2 : (k : Bytes) → length k < 256 ^ 2 → length (setchar2 k) ≡ 2 + length k
unfolding setchar
length-setchar2 k h =
    rw (mod-eq_of_lt h, take-length k)
      (omega (arith, length-append (le_bytes 2 (length k)) k, length-le_bytes 2 (length k)))

size_left : (k n : ℕ) → pos (2 + k + n) -ℤ pos 2 -ℤ pos k ≡ pos n
unfolding ◌-ℤ◌
size_left k n = ground arith

move-pos : (p n : ℕ) → move p (pos n) ≡ ok (p + n)
unfolding ◌+ℤ◌
move-pos p n = ground arith

is_more-pos : (p n : ℕ) → header_size ≤ p → is_more p (pos n) ≡ ltb p (header_size + n)
unfolding is_more ◌-ℤ◌
is_more-pos p n h = ground arith

pub frame-append :
    (key payload bs : Bytes)
    → frame key payload ++ bs
      ≡ setint4 (pos (2 + length key + length payload)) ++ (setchar2 key ++ (payload ++ bs))
unfolding frame
frame-append key payload bs = rw (append_assoc, append_assoc)

pub length-frame :
    (key payload : Bytes)
    → length key ≤ 64
    → length (frame key payload) ≡ 6 + length key + length payload
unfolding frame
length-frame key payload h = omega (
  arith,
  length-append (setint4 (pos (2 + length key + length payload))) (setchar2 key ++ payload),
  length-append (setchar2 key) payload,
  length-setint 4 (pos (2 + length key + length payload)),
  length-setchar2 key (omega arith),
)

module _ (D : Double) (meta : Meta D.F) (levels : ℕ) where
  -- The request fits its format: short keys, records below 2 GB, and values of the fields.
  abbrev pub AreEntries : List Entry → Type 0
  AreEntries [] = Unit {0}
  AreEntries ((key, ss) ∷ es) =
      (length key ≤ 64)
      × (2 + length key + length (setting_bytes ss) < 2 ^ 31)
      × AreSettings meta.fields meta.record_size ss
      × AreEntries es

  -- The updates of all entries, in their order.
  unfoldable pub store_entries : List Entry → Data → Outcome Data
  store_entries [] m = ok m
  store_entries ((key, ss) ∷ es) m =
      store_entry D meta levels key ss m >>= λ m'. store_entries es m'

  update_record-settings :
      (buff rest : Bytes) (s : Round) (q : ℕ) (key : Bytes) (ss : List Setting)
      → length key ≤ 64
      → AreSettings meta.fields meta.record_size ss
      → Sized meta.record_size s.records
      → index_of buff (setting_bytes ss ++ rest) + length (setting_bytes ss) ≡ q
      → update_record D meta levels buff s
          (pos (2 + length key + length (setting_bytes ss)))
          (key, setting_bytes ss ++ rest)
        ≡ (store_entry D meta levels key ss s.records >>= λ m'.
            ok (record { at = q; records = m'; made = suc s.made }))
  unfolding update_record
  update_record-settings buff rest s q key ss h a z e =
      let here =
        subst (λ n. AreSettings meta.fields n ss) (sym (old_record-Sized D meta s.records key z))
          a in
      rw
        (
          size_left (length key) (length (setting_bytes ss)),
          setone-settings D meta levels s.records key ss rest h here,
          move-pos (index_of buff (setting_bytes ss ++ rest)) (length (setting_bytes ss)),
          e,
        )
        (bind_assoc (store_entry D meta levels key ss s.records) (λ m'. ok (true, m')) _)

  set_record-frame :
      (pre rest : Bytes) (m : Data) (n : ℕ) (key : Bytes) (ss : List Setting)
      → length key ≤ 64
      → 2 + length key + length (setting_bytes ss) < 2 ^ 31
      → AreSettings meta.fields meta.record_size ss
      → Sized meta.record_size m
      → set_record D meta levels
          (pre ++ (frame key (setting_bytes ss) ++ rest))
          (record { at = length pre; records = m; made = n })
        ≡ (store_entry D meta levels key ss m >>= λ m'. ok (record {
          at = length (pre ++ frame key (setting_bytes ss));
          records = m';
          made = suc n;
        }))
  unfolding set_record
  set_record-frame pre rest m n key ss h k a z =
      let payload = setting_bytes ss in
      let total = pos (2 + length key + length payload) in
      let buff = pre ++ (frame key payload ++ rest) in
      let end : index_of buff (payload ++ rest) + length payload
          ≡ length (pre ++ frame key payload) =
        omega (
          arith,
          length-append pre (frame key payload ++ rest),
          length-append (frame key payload) rest,
          length-append payload rest,
          length-append pre (frame key payload),
          length-frame key payload h,
        ) in
      rw
        (
          drop-length pre (frame key payload ++ rest),
          frame-append key payload rest,
          getint-setint 4 (2 ^ 31) total (setchar2 key ++ (payload ++ rest)) refl k,
          getchar-setchar 2 key (payload ++ rest) (omega arith),
        )
        (update_record-settings _ rest _ _ key ss h a z (
          subst
            (λ t.
              index_of (pre ++ t) (payload ++ rest) + length payload
              ≡ length (pre ++ frame key payload))
            (frame-append key payload rest) end))

  set_records-end :
      (n : ℕ) (buff : Bytes) (limit : ℤ) (s : Round)
      → is_more s.at limit ≡ false
      → set_records D meta levels n buff limit s ≡ ok s
  unfolding set_records
  set_records-end zero buff limit s e = rw (set_records, e)
  set_records-end (suc n) buff limit s e = rw (set_records, e)

  pub set_records-step :
      (n : ℕ) (buff : Bytes) (limit : ℤ) (s : Round)
      → is_more s.at limit ≡ true
      → set_records D meta levels (suc n) buff limit s
        ≡ (set_record D meta levels buff s >>= λ t. set_records D meta levels n buff limit t)
  unfolding set_records
  set_records-step n buff limit s = ap (λ b. elim b [
    | false ↦ ok s
    | true ↦ set_record D meta levels buff s >>= λ t. set_records D meta levels n buff limit t
  ])

  -- The entries from an index on.
  pub set_records-frames :
      (es : List Entry) (pre : Bytes) (m : Data) (n fuel limit : ℕ)
      → AreEntries es
      → Sized meta.record_size m
      → length es ≤ fuel
      → header_size ≤ length pre
      → length (pre ++ frames es) ≡ header_size + limit
      → set_records D meta levels fuel
          (pre ++ frames es)
          (pos limit)
          (record { at = length pre; records = m; made = n })
        ≡ (store_entries es m >>= λ m'.
            ok (record { at = length (pre ++ frames es); records = m'; made = n + length es }))
  unfolding frames store_entries
  set_records-frames [] pre m n fuel limit a z f h e =
      let start : Round = record { at = length pre; records = m; made = n } in
      let size : length pre ≡ header_size + limit = ap length (sym (append-nil pre)) ∙ e in
      let over : is_more (length pre) (pos limit) ≡ false =
        is_more-pos (length pre) limit h
        ∙ le→ltb (length pre) (header_size + limit) (omega arith) in
      let none_left : n ≡ n + 0 = omega arith in
      set_records-end fuel (pre ++ []) (pos limit) start over
      ∙ ap (λ t. ok (record { at = length t; records = m; made = n })) (sym (append-nil pre))
      ∙ ap (λ k. ok (record { at = length (pre ++ []); records = m; made = k })) none_left
  set_records-frames (x ∷ es) pre m n zero limit a z f h e = absurd (omega arith)
  set_records-frames ((key, ss) ∷ es) pre m n (suc fuel) limit (h1, h2, h3, a) z f h e =
      let payload = setting_bytes ss in
      let pre' = pre ++ frame key payload in
      let shape : pre' ++ frames es ≡ pre ++ (frame key payload ++ frames es) =
        append_assoc pre (frame key payload) (frames es) in
      let longer : header_size ≤ length pre' =
        omega (arith, length-append pre (frame key payload)) in
      let size : length (pre' ++ frames es) ≡ header_size + limit = ap length shape ∙ e in
      let more : is_more (length pre) (pos limit) ≡ true =
        is_more-pos (length pre) limit h
        ∙ lt→ltb (length pre) (header_size + limit) (
            omega (
              arith,
              e,
              length-append pre (frame key payload ++ frames es),
              length-append (frame key payload) (frames es),
              length-frame key payload h1,
            )) in
      let end : ℕ → Data → Round = λ k m'. record {
        at = length (pre ++ (frame key payload ++ frames es));
        records = m';
        made = k;
      } in
      let rest : (m' : Data)
          → Sized meta.record_size m'
          → set_records D meta levels fuel (pre ++ (frame key payload ++ frames es)) (pos limit)
              (record { at = length pre'; records = m'; made = suc n })
            ≡ (store_entries es m' >>= λ m''. ok (end (n + suc (length es)) m'')) =
        λ m' z'.
          subst
            (λ k.
              set_records D meta levels fuel (pre ++ (frame key payload ++ frames es)) (pos limit)
                (record { at = length pre'; records = m'; made = suc n })
              ≡ (store_entries es m' >>= λ m''. ok (end k m'')))
            (omega arith)
            (subst
              (λ t.
                set_records D meta levels fuel t (pos limit)
                  (record { at = length pre'; records = m'; made = suc n })
                ≡ (store_entries es m' >>= λ m''.
                    ok (record { at = length t; records = m''; made = suc n + length es })))
              shape
              (set_records-frames es pre' m' (suc n) fuel limit a z' (omega arith) longer size)) in
      set_records-step fuel _ (pos limit) _ more
      ∙ ap
          (λ o. o >>= λ t.
            set_records D meta levels fuel (pre ++ (frame key payload ++ frames es)) (pos limit) t)
          (set_record-frame pre (frames es) m n key ss h1 h2 h3 z)
      ∙ bind_assoc (store_entry D meta levels key ss m) _ _
      ∙ Ensures-congr (store_entry-Sized D meta levels key ss m z h3) rest
      ∙ sym (bind_assoc (store_entry D meta levels key ss m) (λ m'. store_entries es m') _)
