-- ===== src/Client/Update/Session.antt =====
-- client.cc against record.cc: a SET request from `begin` to `end`, and `opt_set` on it.
use stoxdb.Prelude.{
  ℕ, ◌+◌, ◌^◌, ◌≤◌, ◌<◌, List, [], ◌∷◌, ◌++◌, Bool, true, ◌≡◌, refl, sym, ap, ◌∙◌, length, drop,
  drop-length, arith, length-append, append_assoc, append-nil, Option, some, subst,
}
use stoxdb.Prelude.Int.{pos}
use stoxdb.Outcome.{Outcome, ok, ◌>>=◌, bind_assoc}
use stoxdb.Double.{Double}
use stoxdb.Base.{Bytes}
use stoxdb.Base.Bytes.{setint2, setint4, setint, getint4}
use stoxdb.Base.Bytes.Roundtrip.{getint-setint, length-setint}
use stoxdb.Buffer.{Buffer}
use stoxdb.Meta.{Meta}
use stoxdb.Server.{header_size, Buffers}
use stoxdb.Record.Store.{Data}
use stoxdb.Record.Reply.{status_ok, reply}
use stoxdb.Record.Set.{Round, opt_set, set_records}
use stoxdb.Record.Set.Items.{Setting, setting_bytes, frame}
use stoxdb.Record.Set.Lengths.{Sized}
use stoxdb.Record.Set.Frames.{
  Entry, frames, AreEntries, store_entries, set_records-frames, length-frame,
}
use stoxdb.Client.{Client, set_request_header}
use stoxdb.Client.Get.Sent.{length-set_request_header}
use stoxdb.Client.Update.{Draft, begin, setkey, Item, put_item, finish, opt_set_number}
use stoxdb.Client.Update.Framing.{Room, opened, put_item-opened, setkey-opened}

-- What a call of `setvalue` hands on for a setting.
abbrev pub item_of : Setting → Option Item
item_of (i, bs) = some (2 + length bs, setint2 (pos i) ++ bs)

-- The calls for a record, and for all records of a request.
unfoldable pub set_all : List Setting → Draft → Outcome Draft
set_all [] d = ok d
set_all (s ∷ ss) d = put_item (item_of s) d >>= λ e. set_all ss e

unfoldable pub send_all : List Entry → Draft → Outcome Draft
send_all [] d = ok d
send_all ((key, ss) ∷ es) d = setkey key d >>= λ e. set_all ss e >>= λ f. send_all es f

-- Keys and lengths in their bounds.
abbrev Bounded : List Entry → Type 0
Bounded [] = Unit {0}
Bounded ((key, ss) ∷ es) =
    (length key ≤ 64) × (2 + length key + length (setting_bytes ss) < 2 ^ 31) × Bounded es

set_all-opened :
    (ss : List Setting) (capacity : ℕ) (pre key payload : Bytes)
    → length key ≤ 64
    → header_size + length (pre ++ frame key (payload ++ setting_bytes ss)) ≤ capacity
    → capacity < 2 ^ 31
    → set_all ss (opened capacity pre key payload)
      ≡ ok (opened capacity pre key (payload ++ setting_bytes ss))
unfolding set_all setting_bytes
set_all-opened [] capacity pre key payload h r k = rw (append-nil payload)
set_all-opened ((i, bs) ∷ ss) capacity pre key payload h r k =
    let item = setint2 (pos i) ++ bs in
    let shape : payload ++ (setint2 (pos i) ++ (bs ++ setting_bytes ss))
        ≡ (payload ++ item) ++ setting_bytes ss =
      rw (append_assoc, append_assoc) in
    let size : length item ≡ 2 + length bs =
      omega (arith, length-append (setint2 (pos i)) bs, length-setint 2 (pos i)) in
    let r' : header_size + length (pre ++ frame key ((payload ++ item) ++ setting_bytes ss))
        ≤ capacity =
      subst (λ t. header_size + length (pre ++ frame key t) ≤ capacity) shape r in
    let total = length-append pre (frame key ((payload ++ item) ++ setting_bytes ss)) in
    let framed = length-frame key ((payload ++ item) ++ setting_bytes ss) h in
    let inner = length-append (payload ++ item) (setting_bytes ss) in
    let inner' = length-append payload item in
    let now = length-append pre (frame key payload) in
    let framed' = length-frame key payload h in
    let room : Room (length item) (opened capacity pre key payload) =
      (omega (arith, r', total, framed, inner, inner', now, framed'), k) in
    let small : 2 + length key + length payload < 2 ^ 31 =
      omega (arith, r', total, framed, inner, inner', k) in
    let one : put_item (item_of (i, bs)) (opened capacity pre key payload)
        ≡ ok (opened capacity pre key (payload ++ item)) =
      subst
        (λ n.
          put_item (some (n, item)) (opened capacity pre key payload)
          ≡ ok (opened capacity pre key (payload ++ item)))
        size (put_item-opened capacity pre key payload item room small) in
    ap (λ o. o >>= λ e. set_all ss e) one
    ∙ set_all-opened ss capacity pre key (payload ++ item) h r' k
    ∙ ap (λ t. ok (opened capacity pre key t)) (sym shape)

-- The calls build the records of the request, one behind the other.
send_all-frames :
    (es : List Entry) (d : Draft)
    → Bounded es
    → header_size + length (d.body ++ frames es) ≤ d.capacity
    → d.capacity < 2 ^ 31
    → (e : Draft) × (send_all es d ≡ ok e) × (e.body ≡ d.body ++ frames es)
unfolding send_all frames
send_all-frames [] d b r k = (d, refl, sym (append-nil d.body))
send_all-frames ((key, ss) ∷ es) d (h, _, b) r k =
    let step = opened d.capacity d.body key (setting_bytes ss) in
    let shape : step.body ++ frames es ≡ d.body ++ (frame key (setting_bytes ss) ++ frames es) =
      append_assoc d.body (frame key (setting_bytes ss)) (frames es) in
    let whole = length-append d.body (frame key (setting_bytes ss) ++ frames es) in
    let one = length-append (frame key (setting_bytes ss)) (frames es) in
    let framed = length-frame key (setting_bytes ss) h in
    let now = length-append d.body (frame key (setting_bytes ss)) in
    let room : Room (6 + length key) d = (omega (arith, r, whole, one, framed), k) in
    let fits : header_size + length step.body ≤ d.capacity = omega (arith, r, whole, one, now) in
    let (e, run, text) =
      send_all-frames es step b (subst (λ t. header_size + length t ≤ d.capacity) (sym shape) r)
        k in
    (
      e,
      ap (λ o. o >>= λ e. set_all ss e >>= λ f. send_all es f) (setkey-opened key d h room)
          ∙ ap (λ o. o >>= λ f. send_all es f) (set_all-opened ss d.capacity d.body key [] h fits k)
          ∙ run,
      text ∙ shape,
    )

announced-size :
    {F : Type 0} (c : Client F) (n opt : ℕ) (body : Bytes)
    → n < 2 ^ 31
    → getint4 (drop 4 (set_request_header c n opt ++ body)) ≡ ok (pos n, setint4 (pos opt) ++ body)
unfolding set_request_header setint
announced-size c n opt body h =
    let rest = setint4 (pos n) ++ (setint4 (pos opt) ++ body) in
    let shape : (setint4 c.magic ++ (setint4 (pos n) ++ setint4 (pos opt))) ++ body
        ≡ setint4 c.magic ++ rest =
      append_assoc (setint4 c.magic) (setint4 (pos n) ++ setint4 (pos opt)) body
      ∙ ap (λ t. setint4 c.magic ++ t) (append_assoc (setint4 (pos n)) (setint4 (pos opt)) body) in
    let behind : drop 4 (setint4 c.magic ++ rest) ≡ rest =
      subst (λ k. drop k (setint4 c.magic ++ rest) ≡ rest) (length-setint 4 c.magic)
        (drop-length (setint4 c.magic) rest) in
    ap (λ t. getint4 (drop 4 t)) shape
    ∙ ap getint4 behind
    ∙ getint-setint 4 (2 ^ 31) (pos n) (setint4 (pos opt) ++ body) refl h

module _ (D : Double) (meta : Meta D.F) (levels : ℕ) where
  Entries-Bounded : (es : List Entry) → AreEntries D meta levels es → Bounded es
  Entries-Bounded [] a = tt
  Entries-Bounded (e ∷ es) (h, k, _, a) = (h, k, Entries-Bounded es a)

  opt_set-frames :
      (c : Client D.F) (es : List Entry) (m : Data) (recv send : Buffer)
      → AreEntries D meta levels es
      → Sized meta.record_size m
      → length (frames es) < 2 ^ 31
      → recv.contents ≡ set_request_header c (length (frames es)) opt_set_number ++ frames es
      → opt_set D meta levels (length es) m (recv, send) ≡ (
          store_entries D meta levels es m >>= λ m'.
          reply status_ok (setint4 (pos (length es))) send >>= λ s. ok (true, (recv, s), m'))
  unfolding opt_set
  opt_set-frames c es m recv send a z h e =
      let header = set_request_header c (length (frames es)) opt_set_number in
      let headed = length-set_request_header c (length (frames es)) opt_set_number in
      let text = header ++ frames es in
      let start : Round = record { at = header_size; records = m; made = 0 } in
      let stop : ℕ → Data → Round = λ n m'. record { at = length text; records = m'; made = n } in
      let rest : Round → Outcome (Bool × Buffers × Data) =
        λ r. reply status_ok (setint4 (pos r.made)) send >>= λ s. ok (true, (recv, s), r.records) in
      let all = set_records D meta levels (length es) text (pos (length (frames es))) in
      let ran : all start ≡ (store_entries D meta levels es m >>= λ m'. ok (stop (length es) m')) =
        subst (λ n. all start ≡ (store_entries D meta levels es m >>= λ m'. ok (stop n m')))
          (omega arith)
          (subst
            (λ p.
              all (record { at = p; records = m; made = 0 })
              ≡ (store_entries D meta levels es m >>= λ m'. ok (stop (0 + length es) m')))
            headed
            (set_records-frames D meta levels es header m 0 (length es) (length (frames es)) a z
              (omega arith) (omega (arith, headed))
              (omega (arith, headed, length-append header (frames es))))) in
      subst
        (λ t.
          (getint4 (drop 4 t) >>= λ size.
          set_records D meta levels (length es) t size.0 start >>= rest)
          ≡ (store_entries D meta levels es m >>= λ m'. rest (stop (length es) m')))
        (sym e)
        (ap (λ o. o >>= λ size. set_records D meta levels (length es) text size.0 start >>= rest)
            (announced-size c (length (frames es)) opt_set_number (frames es) h)
          ∙ ap (λ o. o >>= rest) ran
          ∙ bind_assoc (store_entries D meta levels es m) (λ m'. ok (stop (length es) m')) rest)

  -- A client begins a request, sets keys and values of fields that are there, and ends it, all in the
  -- space that its buffer has. Then `opt_set` on the bytes that are sent, with a round for each record,
  -- stores exactly the values of each record under its key, in their order, with the formulas that
  -- depend on them, and answers the number of the records; it fails only where a formula does, or the
  -- answer has no room.
  pub opt_set-finish :
      (c : Client D.F) (es : List Entry) (m : Data) (d : Draft) (recv send : Buffer)
      → AreEntries D meta levels es
      → Sized meta.record_size m
      → header_size + length (frames es) ≤ d.capacity
      → d.capacity < 2 ^ 31
      → (e : Draft) × (send_all es (begin d) ≡ ok e)
        × (opt_set D meta levels (length es) m (record recv { contents = finish c e }, send) ≡ (
            store_entries D meta levels es m >>= λ m'.
            reply status_ok (setint4 (pos (length es))) send >>= λ s.
            ok (true, (record recv { contents = finish c e }, s), m')))
  unfolding begin finish
  opt_set-finish c es m d recv send a z r k =
      let (e, run, text) = send_all-frames es (begin d) (Entries-Bounded es a) r k in
      (
        e,
        run,
        opt_set-frames c es m (record recv { contents = finish c e }) send a z (omega arith)
            (ap (λ t. set_request_header c (length t) opt_set_number ++ t) text),
      )
