-- ===== src/Server/Events.antt =====
-- server.cc: an event of the loop, and what epoll is asked to report behind it.
use stoxdb.Prelude.{
  ℕ, Bool, true, false, not, ◌&&◌, ◌≡◌, refl, sym, ◌∙◌, subst, length, inl, inr, Bool-cases,
}
use stoxdb.Outcome.{Ensures, done, Ensures-bind, if_both}
use stoxdb.Connection.States.{load-Found}
use stoxdb.Server.{Stat, Limits, Handlers, handle_write_event}
use stoxdb.Server.Loop.{
  for_input, for_output, Poll, Event, Answers, read_branch, write_branch, handle_event,
}
use stoxdb.Server.Verdicts.{handle_read_event-AptRead, handle_write_event-AptWrite}
use stoxdb.Server.Watched.{Watched, close_polled-Watched, Apt, apply_verdict-Watched}

-- Epoll reports of a connection only what it was asked to report.
abbrev pub Reported : Poll → Event → Type 0
Reported p e =
    (e.input ≡ true → p.watch e.address ≡ for_input)
    × (e.output ≡ true → p.watch e.address ≡ for_output)

and_false : (b : Bool) → (b && false) ≡ false
and_false true = refl
and_false false = refl

no_output :
    (p : Poll) (e : Event)
    → p.watch e.address ≡ for_input
    → (e.output ≡ true → p.watch e.address ≡ for_output)
    → e.output ≡ false
no_output p e i o = elim (Bool-cases e.output) [ inl t ↦ (let z = o t in absurd (cc)) | inr n ↦ n ]

module _ (l : Limits) (hs : Handlers) (k : Answers) where
  read_branch-Watched :
      (a : ℕ) (s : Stat) (p : Poll)
      → Watched p
      → p.watch a ≡ for_input
      → Ensures (λ (r : Bool × Stat × Poll). Watched r.2) (read_branch l hs k a s p)
  unfolding read_branch
  read_branch-Watched a s p w i = Ensures-bind (load-Found p.manager a) λ c e.
      Ensures-bind
        (handle_read_event-AptRead l hs (length p.manager.connections) k.alloc k.now k.read s c
          (sym i ∙ w a c e))
        λ r q.
          Ensures-bind
            (apply_verdict-Watched k.epoll_output r.0 r.2 p a w
              (subst (λ j. Apt r.0 j r.2.state) (sym i) q))
            λ p' w'. done w'

  write_branch-Watched :
      (a : ℕ) (s : Stat) (p : Poll)
      → Watched p
      → p.watch a ≡ for_output
      → Ensures (λ (r : Stat × Poll). Watched r.1) (write_branch l hs k a s p)
  unfolding write_branch
  write_branch-Watched a s p w i = Ensures-bind (load-Found p.manager a) λ c e.
      let q = handle_write_event-AptWrite k.now k.write s c (sym i ∙ w a c e) in
      let r = handle_write_event k.now k.write s c in
      Ensures-bind
        (apply_verdict-Watched k.epoll_input r.0 r.2 p a w
          (subst (λ j. Apt r.0 j r.2.state) (sym i) q))
        λ p' w'. done w'

  -- If each connection is watched for output exactly while it is sending a response, and for input
  -- otherwise, and epoll reports of a connection only what it is watched for, then this is so again
  -- behind an event, whatever the read, the write, the handlers and epoll answer.
  pub handle_event-Watched :
      (e : Event) (s : Stat) (p : Poll)
      → Watched p
      → Reported p e
      → Ensures (λ (r : Stat × Poll). Watched r.1) (handle_event l hs k e s p)
  unfolding handle_event
  handle_event-Watched e s p w (i, o) =
      if_both (Ensures λ (r : Stat × Poll). Watched r.1) e.hangup
        (λ _. Ensures-bind (close_polled-Watched p e.address λ b c q. w b c) λ p' w'. done w')
        λ _. elim (Bool-cases e.input) [
          | inl t ↦ rw t (
              Ensures-bind (read_branch-Watched e.address s p w (i t))
                λ r w'. rw (no_output p e (i t) o, and_false (not r.0)) (done w'))
          | inr n ↦ rw n (
              if_both (Ensures λ (r : Stat × Poll). Watched r.1) e.output
                (λ t. write_branch-Watched e.address s p w (o t)) λ _. done w)
        ]
