-- ===== src/Client/Update/Framing.antt =====
-- client.cc: the records of a SET request and the lengths in front of them.
use stoxdb.Prelude.{
  ℕ, zero, suc, ◌+◌, ◌^◌, ◌≤◌, ◌<◌, [], ◌++◌, true, ◌==◌, ◌≡◌, refl, sym, ap, ◌∙◌, length, drop,
  drop-length, take-prefix, arith, length-append, append_assoc, append-nil, some, le→ltb, lt→ltb,
  subst,
}
use stoxdb.Prelude.Int.{pos, ◌+ℤ◌}
use stoxdb.Outcome.{ok}
use stoxdb.Base.{Bytes}
use stoxdb.Base.Bytes.{setint4, setchar2}
use stoxdb.Base.Bytes.Roundtrip.{getint-setint, length-setint}
use stoxdb.Buffer.{Buffer, expand_buffer, grow, grow_fuel, int_limit}
use stoxdb.Server.{header_size}
use stoxdb.Record.Store.{write_at}
use stoxdb.Record.Set.Items.{frame}
use stoxdb.Record.Set.Frames.{frame-append, length-setchar2}
use stoxdb.Client.Update.{Draft, reserve, write, add_size, setkey, put_item}

-- There is room for `n` more bytes.
abbrev pub Room : ℕ → Draft → Type 0
Room n d = (header_size + length d.body + n ≤ d.capacity) × (d.capacity < 2 ^ 31)

grow-Room : (n capacity need : ℕ) → need ≤ capacity → grow n capacity need ≡ ok capacity
unfolding grow
grow-Room zero capacity need h = rw (le→ltb capacity need h)
grow-Room (suc n) capacity need h = rw (grow, le→ltb capacity need h)

expand_buffer-Room :
    (bf : Buffer) (n : ℕ)
    → bf.offset + n ≤ bf.capacity
    → bf.capacity < 2 ^ 31
    → expand_buffer true bf (pos n) ≡ ok (true, bf)
unfolding expand_buffer
expand_buffer-Room bf zero h k = refl
expand_buffer-Room bf (suc n) h k = rw (
  lt→ltb (bf.offset + suc n) int_limit (omega arith),
  grow-Room grow_fuel bf.capacity (bf.offset + suc n) h,
  le→ltb bf.capacity bf.capacity (omega arith),
)

self-== : (n : ℕ) → (n == n) ≡ true
self-== n = ground arith

reserve-Room : (n : ℕ) (d : Draft) → Room n d → reserve n d ≡ ok d
unfolding reserve
reserve-Room n d (h, k) = rw (
  expand_buffer-Room
      (record {
        contents = d.body;
        capacity = d.capacity;
        offset = header_size + length d.body;
        size = 0;
      })
      n h k,
  self-== d.capacity,
)

write-Room :
    (bs : Bytes) (d : Draft)
    → Room (length bs) d
    → write bs d ≡ ok (record d { body = d.body ++ bs })
unfolding write
write-Room bs d (h, k) = rw (le→ltb d.capacity (header_size + length d.body + length bs) h)

-- Bytes in the middle, replaced by as many.
write_at-middle :
    (xs old new rest : Bytes)
    → length new ≡ length old
    → write_at (length xs) new (xs ++ (old ++ rest)) ≡ ok (xs ++ (new ++ rest))
unfolding write_at
write_at-middle xs old new rest e =
    let fits : length xs + length new ≤ length (xs ++ (old ++ rest)) =
      omega (arith, e, length-append xs (old ++ rest), length-append old rest) in
    let behind : drop (length xs + length new) (xs ++ (old ++ rest)) ≡ rest =
      subst (λ k. drop k (xs ++ (old ++ rest)) ≡ rest) (omega (arith, e, length-append xs old))
        (subst (λ ys. drop (length (xs ++ old)) ys ≡ rest) (append_assoc xs old rest)
          (drop-length (xs ++ old) rest)) in
    rw (
      le→ltb (length (xs ++ (old ++ rest))) (length xs + length new) fits,
      take-prefix xs (old ++ rest),
      behind,
    )

-- A draft that ends in the record of a key, begun behind `pre`.
abbrev pub opened : ℕ → Bytes → Bytes → Bytes → Draft
opened capacity pre key payload = record {
  capacity = capacity;
  body = pre ++ frame key payload;
  begin = some (length pre);
}

add_size-middle :
    (capacity : ℕ) (pre rest : Bytes) (k n : ℕ)
    → k < 2 ^ 31
    → add_size n (record {
      capacity = capacity;
      body = pre ++ (setint4 (pos k) ++ rest);
      begin = some (length pre);
    })
      ≡ ok (record {
        capacity = capacity;
        body = pre ++ (setint4 (pos k +ℤ pos n) ++ rest);
        begin = some (length pre);
      })
unfolding add_size
add_size-middle capacity pre rest k n h = rw (
  drop-length pre (setint4 (pos k) ++ rest),
  getint-setint 4 (2 ^ 31) (pos k) rest refl h,
  write_at-middle pre (setint4 (pos k)) (setint4 (pos k +ℤ pos n)) rest
      (length-setint 4 (pos k +ℤ pos n) ∙ sym (length-setint 4 (pos k))),
)

size_sum : (a b n : ℕ) → pos (2 + a + b) +ℤ pos n ≡ pos (2 + a + (b + n))
unfolding ◌+ℤ◌
size_sum a b n = ground arith

frame_raise :
    (key payload bs : Bytes)
    → setint4 (pos (2 + length key + length payload) +ℤ pos (length bs))
        ++ (setchar2 key ++ (payload ++ bs))
      ≡ frame key (payload ++ bs)
unfolding frame
frame_raise key payload bs =
    rw (size_sum (length key) (length payload) (length bs), length-append payload bs)

pub put_item-opened :
    (capacity : ℕ) (pre key payload bs : Bytes)
    → Room (length bs) (opened capacity pre key payload)
    → 2 + length key + length payload < 2 ^ 31
    → put_item (some (length bs, bs)) (opened capacity pre key payload)
      ≡ ok (opened capacity pre key (payload ++ bs))
unfolding put_item
put_item-opened capacity pre key payload bs room small = rw (
  reserve-Room (length bs) (opened capacity pre key payload) room,
  write-Room bs (opened capacity pre key payload) room,
  append_assoc,
  frame-append key payload bs,
  add_size-middle capacity pre (setchar2 key ++ (payload ++ bs)) (2 + length key + length payload)
      (length bs) small,
  frame_raise key payload bs,
)

frame_nil : (k : Bytes) → frame k [] ≡ setint4 (pos (2 + length k)) ++ setchar2 k
unfolding frame
frame_nil k = rw (append-nil (setchar2 k)) (ap (λ n. setint4 (pos n) ++ setchar2 k) (omega arith))

pub setkey-opened :
    (k : Bytes) (d : Draft)
    → length k ≤ 64
    → Room (6 + length k) d
    → setkey k d ≡ ok (opened d.capacity d.body k [])
unfolding setkey
setkey-opened k d h room =
    let head = setint4 (pos (2 + length k)) ++ setchar2 k in
    let size : length head ≡ 6 + length k = omega (
      arith,
      length-append (setint4 (pos (2 + length k))) (setchar2 k),
      length-setint 4 (pos (2 + length k)),
      length-setchar2 k (omega arith),
    ) in
    let fits : Room (length head) d = omega (arith, size) in
    rw (
      le→ltb 64 (length k) h,
      reserve-Room (4 + (2 + length k)) d (omega arith, room.1),
      write-Room head (record d { begin = some (length d.body) }) fits,
      frame_nil k,
    )
