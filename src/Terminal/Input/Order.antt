-- ===== src/Terminal/Input/Order.antt =====
-- The queue is bounded, and delivers what it has accepted, in order.
use nex_shell.Prelude.{
  take-append-drop, length-drop-le, ℕ, ◌+◌, ◌≤◌, ◌≡◌, refl, sym, ◌∙◌, ap, Option, none, some, List,
  [], ◌∷◌, ◌++◌, arith, ◌==◌, ltb, Bytes, length, length-append, take, drop, append_assoc,
  append-nil, Bool-cases, inl, inr, Result, ok, err,
}
use nex_shell.Terminal.Input.{
  InputError, eof, InputBuffer, new_input_buffer, max_pending_input, read_from, read, failed_with,
  fail, write_to, write, close,
}

-- the calls of the two sides
pub data Call : Type 0 where
  writes : Bytes → Call
  reads : ℕ → Call
  closes : Call

-- a queue, with all bytes that its writes accepted and all that its reads delivered
pub record Log : Type 0 where
  pub buffer : InputBuffer
  pub accepted : Bytes
  pub delivered : Bytes

wrote : Log → Bytes → Result InputError ℕ × InputBuffer → Log
wrote log b (ok n, p) = record {
  buffer = p;
  accepted = log.accepted ++ b;
  delivered = log.delivered;
}
wrote log b (err e, p) = record log { buffer = p }

got : Log → Option (Result InputError Bytes × InputBuffer) → Log
got log none = log
got log (some (ok b, p)) = record {
  buffer = p;
  accepted = log.accepted;
  delivered = log.delivered ++ b;
}
got log (some (err e, p)) = record log { buffer = p }

unfoldable pub call : Call → Log → Log
unfolding wrote got
call (writes b) log = wrote log b (write b log.buffer)
call (reads n) log = got log (read n log.buffer)
call closes log = record log { buffer = close log.buffer }

unfoldable pub calls : List Call → Log → Log
calls [] log = log
calls (c ∷ rest) log = calls rest (call c log)

abbrev pub new_log : Log
new_log = record { buffer = new_input_buffer; accepted = []; delivered = [] }

-- what is queued is what has been accepted and not yet delivered
abbrev Queued : Option InputError → Bytes → Bytes → Type 0
Queued none rest queue = rest ≡ queue
Queued (some e) rest queue = queue ≡ []

record InOrder (log : Log) : Type 0 where
  bounded : length log.buffer.queue ≤ max_pending_input
  rest : Bytes
  split : log.delivered ++ rest ≡ log.accepted
  queued : Queued log.buffer.failure rest log.buffer.queue

wrote-InOrder :
    (log : Log) (b : Bytes) (f : Option InputError)
    → f ≡ log.buffer.failure
    → InOrder log
    → InOrder (wrote log b (write_to b f log.buffer))
unfolding wrote write_to fail failed_with
wrote-InOrder log b (some e) ef o = o
wrote-InOrder log b none ef o =
    elim (Bool-cases (ltb max_pending_input (length log.buffer.queue + length b))) [
      | inl full ↦
          rw (full, ← ef)
            (record { bounded = omega arith; rest = o.rest; split = o.split; queued = refl })
      | inr fits ↦
          let q : o.rest ≡ log.buffer.queue = rw (← ef) at o.queued in
          rw (fits, ← ef)
            (record {
              bounded = rw (length-append log.buffer.queue b) (ground arith);
              rest = o.rest ++ b;
              split = sym (append_assoc log.delivered o.rest b) ∙ ap (λ x. x ++ b) o.split;
              queued = ap (λ x. x ++ b) q;
            })
    ]

got-InOrder :
    (log : Log) (n : ℕ) (queue : Bytes) (f : Option InputError)
    → f ≡ log.buffer.failure
    → queue ≡ log.buffer.queue
    → InOrder log
    → InOrder (got log (read_from n queue f log.buffer))
unfolding got read_from
got-InOrder log n queue (some e) ef eq o = o
got-InOrder log n [] none ef eq o = o
got-InOrder log n (x ∷ queue) none ef eq o =
    let q : o.rest ≡ log.buffer.queue = rw (← ef) at o.queued in
    let whole : take n (x ∷ queue) ++ drop n (x ∷ queue) ≡ o.rest =
      take-append-drop n (x ∷ queue) ∙ eq ∙ sym q in
    record {
      bounded = omega (arith, length-drop-le n (x ∷ queue), ap length eq, o.bounded);
      rest = drop n (x ∷ queue);
      split =
          append_assoc log.delivered (take n (x ∷ queue)) (drop n (x ∷ queue))
          ∙ ap (λ r. log.delivered ++ r) whole
          ∙ o.split;
      queued = rw (← ef) refl;
    }

failed-InOrder :
    (log : Log) (f : Option InputError)
    → f ≡ log.buffer.failure
    → InOrder log
    → InOrder (record log { buffer = failed_with eof f log.buffer })
unfolding failed_with
failed-InOrder log none ef o = record {
  bounded = omega arith;
  rest = o.rest;
  split = o.split;
  queued = refl;
}
failed-InOrder log (some e) ef o = o

call-InOrder : (c : Call) (log : Log) → InOrder log → InOrder (call c log)
unfolding call write read close fail
call-InOrder (writes b) log o = wrote-InOrder log b log.buffer.failure refl o
call-InOrder (reads n) log o = elim (Bool-cases (n == 0)) [
  | inl z ↦ rw z (
      unfold got in
      record {
        bounded = o.bounded;
        rest = o.rest;
        split = rw (append-nil log.delivered) o.split;
        queued = o.queued;
      })
  | inr nz ↦ rw nz (got-InOrder log n log.buffer.queue log.buffer.failure refl refl o)
]
call-InOrder closes log o = failed-InOrder log log.buffer.failure refl o

calls-InOrder : (list : List Call) (log : Log) → InOrder log → InOrder (calls list log)
unfolding calls
calls-InOrder [] log o = o
calls-InOrder (c ∷ list) log o = calls-InOrder list (call c log) (call-InOrder c log o)

new-InOrder : InOrder new_log
new-InOrder = record { bounded = omega arith; rest = []; split = refl; queued = refl }

-- After any calls of the two sides, in any order, at most 1 MiB is queued, and what the reads have
-- delivered is the beginning of what the writes have accepted.
pub input_order :
    (list : List Call)
    → (length (calls list new_log).buffer.queue ≤ max_pending_input)
      × ((rest : Bytes) × ((calls list new_log).delivered ++ rest ≡ (calls list new_log).accepted))
input_order list = let o = calls-InOrder list new_log new-InOrder in (o.bounded, (o.rest, o.split))

-- As long as the queue has not failed and is not closed, nothing is lost: what was delivered and what is
-- queued are together what the writes have accepted.
pub input_complete :
    (list : List Call)
    → (calls list new_log).buffer.failure ≡ none
    → (calls list new_log).delivered ++ (calls list new_log).buffer.queue
      ≡ (calls list new_log).accepted
input_complete list h =
    let o = calls-InOrder list new_log new-InOrder in
    let q : o.rest ≡ (calls list new_log).buffer.queue = rw h at o.queued in
    ap (λ x. (calls list new_log).delivered ++ x) (sym q) ∙ o.split
