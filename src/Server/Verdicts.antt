-- ===== src/Server/Verdicts.antt =====
-- server.cc: the verdicts of the read and the write handler, against the state that they leave.
use stoxdb.Prelude.{
  ℕ, ◌+◌, ◌==◌, Bool, false, ◌≡◌, refl, some, none, Option, ltb, leb, length, if◌then◌else◌, ◌⊎◌,
  inl, inr,
}
use stoxdb.Outcome.{ok, ◌>>=◌, Ensures, done, crashed, Ensures-bind, Ensures-trivial, if_both}
use stoxdb.Buffer.{expand_buffer}
use stoxdb.Connection.{State, reading_header, reading_body, writing, idle, buffer_size, Connection}
use stoxdb.Server.{
  Stat, Header, difference, Limits, Handlers, ReadAnswer, arrived, WriteAnswer, sent, Verdict,
  close, go_on, start_request, receive, take_answer, after_read, finish_read, parse_header,
  check_header, read_header, process_data, handle_read_event, handle_write_event, finish_write,
  write_size, header_size,
}
use stoxdb.Server.Loop.{for_input, for_output}
use stoxdb.Server.Watched.{interest_of, Apt}

-- What a connection needs, where it waits for input.
abbrev Quiet : Connection → Type 0
Quiet c = for_input ≡ interest_of c.state

State-cases :
    (s : State) → (s ≡ reading_header) ⊎ ((s ≡ reading_body) ⊎ ((s ≡ writing) ⊎ (s ≡ idle)))
State-cases reading_header = inl refl
State-cases reading_body = inr (inl refl)
State-cases writing = inr (inr (inl refl))
State-cases idle = inr (inr (inr refl))

start_request-Quiet : (c : Connection) → Quiet c → Quiet (start_request c)
unfolding start_request
start_request-Quiet c h = elim (State-cases c.state) [
  | inl e ↦ rw (start_request, e) h
  | inr (inl e) ↦ rw (start_request, e) h
  | inr (inr (inl e)) ↦ rw (start_request, e) h
  | inr (inr (inr e)) ↦ rw (start_request, e) refl
]

parse_header-Quiet :
    (l : Limits) (alloc : Bool) (c : Connection)
    → Quiet c
    → Ensures (λ (r : Bool × Connection). Quiet r.1) (parse_header l alloc c)
unfolding parse_header
parse_header-Quiet l alloc c h =
    if_both (Ensures λ (r : Bool × Connection). Quiet r.1) (ltb c.recv.offset header_size)
      (λ _. done h)
      λ _.
        Ensures-bind (Ensures-trivial (read_header c.recv.contents))
          λ hd u. Ensures-bind (Ensures-trivial (check_header l hd)) λ r u'. accepted hd r
  where
    accepted :
        (hd : Header) (r : Option ℕ)
        → Ensures
            (λ (r : Bool × Connection). Quiet r.1)
            (elim r [
              | none ↦ ok (false, c)
              | some size ↦
                  expand_buffer alloc
                    (record (c.recv) { size = size })
                    (difference size c.recv.offset)
                  >>= λ e. ok (e.0, record c { state = reading_body; opt = hd.opt; recv = e.1 })
            ])
    accepted hd none = done h
    accepted hd (some size) =
        Ensures-bind
          (Ensures-trivial
            (expand_buffer alloc (record (c.recv) { size = size }) (difference size c.recv.offset)))
          λ e u. done refl

module _ (l : Limits) (hs : Handlers) (count : ℕ) where
  abbrev AptRead : Verdict × Stat × Connection → Type 0
  AptRead r = Apt r.0 for_input r.2.state

  finish_read-AptRead :
      (s : Stat) (c : Connection) → Quiet c → Ensures AptRead (finish_read l hs count s c)
  unfolding finish_read
  finish_read-AptRead s c h = elim (State-cases c.state) [
    | inl e ↦ rw (finish_read, e) (done {a = (go_on, s, c)} h)
    | inr (inl e) ↦
        rw (finish_read, e)
          (if_both (Ensures AptRead) (leb c.recv.size c.recv.offset)
            (λ _.
              Ensures-bind
                (Ensures-trivial (
                  process_data hs count (record s { recv_bytes = s.recv_bytes + c.recv.offset })
                    (record c { request_count = c.request_count + 1 })))
                λ r u. if_both (Ensures AptRead) r.0 (λ _. done refl) λ _. done tt)
            λ _. done {a = (go_on, s, c)} h)
    | inr (inr (inl e)) ↦ rw (finish_read, e) (done {a = (go_on, s, c)} h)
    | inr (inr (inr e)) ↦ rw (finish_read, e) (done {a = (go_on, s, c)} h)
  ]

  after_read-AptRead :
      (alloc : Bool) (s : Stat) (c : Connection)
      → Quiet c
      → Ensures AptRead (after_read l hs count alloc s c)
  unfolding after_read
  after_read-AptRead alloc s c h = elim (State-cases c.state) [
    | inl e ↦
        rw (after_read, e)
          (Ensures-bind (parse_header-Quiet l alloc c h)
            λ r q. if_both (Ensures AptRead) r.0 (λ _. finish_read-AptRead _ r.1 q) λ _. done tt)
    | inr (inl e) ↦ rw (after_read, e) (finish_read-AptRead s c h)
    | inr (inr (inl e)) ↦ rw (after_read, e) (finish_read-AptRead s c h)
    | inr (inr (inr e)) ↦ rw (after_read, e) (finish_read-AptRead s c h)
  ]

  take_answer-AptRead :
      (alloc : Bool) (now : ℕ) (r : ReadAnswer) (s : Stat) (c : Connection)
      → Quiet c
      → Ensures AptRead (take_answer l hs count alloc now r s c)
  unfolding take_answer receive
  take_answer-AptRead alloc now (arrived bytes) s c h =
      if_both (Ensures AptRead) (length bytes == 0) (λ _. done tt)
        λ _.
          Ensures-bind
            (if_both (Ensures Quiet) (ltb c.recv.capacity (c.recv.offset + length bytes))
              (λ _. crashed) λ _. done h)
            λ d q. after_read-AptRead alloc s d q
  take_answer-AptRead alloc now ReadAnswer.wait s c h = after_read-AptRead alloc s c h
  take_answer-AptRead alloc now ReadAnswer.broken s c h = done tt

  pub handle_read_event-AptRead :
      (alloc : Bool) (now : ℕ) (read : ℕ → ReadAnswer) (s : Stat) (c : Connection)
      → Quiet c
      → Ensures AptRead (handle_read_event l hs count alloc now read s c)
  unfolding handle_read_event
  handle_read_event-AptRead alloc now read s c h =
      take_answer-AptRead alloc now (read buffer_size) s (start_request c) (start_request-Quiet c h)

abbrev AptWrite : Verdict × Stat × Connection → Type 0
AptWrite r = Apt r.0 for_output r.2.state

finish_write-AptWrite :
    (s : Stat) (c : Connection) → for_output ≡ interest_of c.state → AptWrite (finish_write s c)
unfolding finish_write
finish_write-AptWrite s c h = if_both AptWrite (leb c.send.size c.send.offset) (λ _. refl) λ _. h

pub handle_write_event-AptWrite :
    (now : ℕ) (write : ℕ → WriteAnswer) (s : Stat) (c : Connection)
    → for_output ≡ interest_of c.state
    → AptWrite (handle_write_event now write s c)
unfolding handle_write_event
handle_write_event-AptWrite now write s c h = elim (State-cases c.state) [
  | inl e ↦ rw (handle_write_event, e) h
  | inr (inl e) ↦ rw (handle_write_event, e) h
  | inr (inr (inl e)) ↦ rw (handle_write_event, e) (written (write (write_size c)))
  | inr (inr (inr e)) ↦ rw (handle_write_event, e) h
]
  where
    written :
        (w : WriteAnswer)
        → AptWrite (elim w [
          | sent n ↦
              if ltb 0 n
              then finish_write s (record c {
                send = record (c.send) { offset = c.send.offset + n };
                last_active = now;
                total_bytes_sent = c.total_bytes_sent + n;
              })
              else finish_write s c
          | WriteAnswer.wait ↦ finish_write s c
          | WriteAnswer.broken ↦ (close, s, c)
        ])
    written (sent n) =
        if_both AptWrite (ltb 0 n) (λ _. finish_write-AptWrite s _ h)
          λ _. finish_write-AptWrite s c h
    written WriteAnswer.wait = finish_write-AptWrite s c h
    written WriteAnswer.broken = tt
