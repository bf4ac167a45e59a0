-- ===== src/Zmodem/Receive/Loop.antt =====
-- `Receive`: the loop over the headers.
use nex_shell.Prelude.{
  ℕ, zero, suc, ◌≡◌, ◌∙◌, Bool, true, false, not, Option, none, some, ◌==◌, if◌then◌else◌, length,
  Result, ok, err, pure, ◌>>◌, Post, Hoare-pure, Hoare-fail, Hoare-if, Hoare-bind, Hoare-gets,
  Hoare-before, Hoare-after,
}
use nex_shell.Zmodem.Data.{read_data}
use nex_shell.Zmodem.Disk.{Disk}
use nex_shell.Zmodem.Headers.{read_header}
use nex_shell.Zmodem.Receive.{
  Local, Receiver, Receive, no_fuel, ready, final_step, final_loop, on_fin, on_eof, on_header,
  receive_loop, request, receive_body,
}
use nex_shell.Zmodem.Receive.Files.{Between, on_file-Between}
use nex_shell.Zmodem.Receive.Keeps.{Kept}
use nex_shell.Zmodem.Receive.Quiet.{
  Quiet, Quiet-pure, Quiet-fail, Quiet-if, Quiet-bind, Quiet-on_wire, Quiet-try_wire,
  Quiet-system_call, Quiet-check_context, Quiet-reply, Asserts, Quiet-Asserts,
}
use nex_shell.Zmodem.Receive.Session.{
  KeptIn, Complete, on_data-Between, on_eof-Complete, Complete-Between,
}
use nex_shell.Zmodem.Wire.{
  Error, eof, missing_final_oo, ended_before_completion, remote_aborted, unexpected_kind,
  out_of_fuel, raw, zrqinit, zsinit, zfile, zdata, zeof, zfin, zabort, zack, Header, position,
}

-- what the session leaves when it ends well
pub record Done (before : Disk) (l : Local) : Type 0 where
  pub kept : Kept before l.disk
  pub closed : l.file ≡ false

Quiet-final_step :
    (again : Receive Unit) (x : Result Error ℕ) → Quiet again → Quiet (final_step again x)
unfolding final_step
Quiet-final_step again (err e) q = elim e as (λ k. Quiet (final_step again (err k))) [
  | eof ↦ Quiet-pure tt
  | _ ↦ Quiet-fail _
]
Quiet-final_step again (ok b) q =
    Quiet-if (not (b == b'O')) q
      (Quiet-bind (Quiet-on_wire raw) λ next. Quiet-if (next == b'O') (Quiet-pure tt) q)

pub Quiet-final_loop : (count : ℕ) → Quiet (final_loop count)
unfolding final_loop
Quiet-final_loop zero = Quiet-fail missing_final_oo
Quiet-final_loop (suc count) =
    Quiet-bind (Quiet-try_wire raw)
      λ x. Quiet-final_step (final_loop count) x (Quiet-final_loop count)

-- what is known behind the switch on a header
After : Disk → Bool → Local → Type 0
After before true l = Done before l
After before false l = Between before l

module _ (before : Disk) where
  on_fin-Done : Asserts (Between before) on_fin (λ _. Done before) (KeptIn before)
  unfolding on_fin
  on_fin-Done =
      Hoare-gets (λ r. r.file)
        λ open_file.
          Hoare-if open_file (λ _. Hoare-fail ended_before_completion (λ r p. p.0.kept))
            λ shut.
              Hoare-before (λ r p. record { kept = p.0.kept; closed = p.1 ∙ shut })
                (Hoare-bind
                  (Quiet-Asserts (Done before) (KeptIn before) (Quiet-reply (position zfin 0))
                    (λ l d. d.kept))
                  λ _.
                    Quiet-Asserts (Done before) (KeptIn before) (Quiet-final_loop 32)
                      (λ l d. d.kept))

  -- a step, and on to the next header
  onwards :
      {A : Type 0} {m : Receive A}
      → Asserts (Between before) m (λ _. Between before) (KeptIn before)
      → Asserts (Between before) (m >> pure false) (After before) (KeptIn before)
  unfolding After
  onwards h = Hoare-bind h λ _. Hoare-pure false (λ r b. b)

  quietly :
      {A : Type 0} {m : Receive A}
      → Quiet m
      → Asserts (Between before) m (λ _. Between before) (KeptIn before)
  quietly q = Quiet-Asserts (Between before) (KeptIn before) q (λ l b. b.kept)

  on_header-After :
      (h : Header) → Asserts (Between before) (on_header no_fuel h) (After before) (KeptIn before)
  unfolding on_header After
  on_header-After h =
      Hoare-if (h.kind == zrqinit) (λ _. onwards (quietly (Quiet-reply ready)))
        λ _.
          Hoare-if (h.kind == zsinit)
            (λ _.
              Hoare-bind (quietly (Quiet-on_wire (read_data h.crc32)))
                λ _. onwards (quietly (Quiet-reply (position zack 1))))
            λ _.
              Hoare-if (h.kind == zfile) (λ _. onwards (on_file-Between before h))
                λ _.
                  Hoare-if (h.kind == zdata) (λ _. onwards (on_data-Between before h))
                    λ _.
                      Hoare-if (h.kind == zeof)
                        (λ _. onwards (
                          Hoare-after (λ _ r. Complete-Between before r.local) (λ r k. k)
                            (on_eof-Complete before h)))
                        λ _.
                          Hoare-if (h.kind == zfin)
                            (λ _. Hoare-bind (on_fin-Done) λ _. Hoare-pure true (λ r d. d))
                            λ _.
                              Hoare-if (h.kind == zabort)
                                (λ _. Hoare-fail remote_aborted (λ r b. b.kept))
                                λ _. Hoare-fail (unexpected_kind h.kind) (λ r b. b.kept)

  next_header :
      (over : Bool) {m : Receive Unit}
      → Asserts (Between before) m (λ _. Done before) (KeptIn before)
      → Asserts (After before over) (if over then pure tt else m) (λ _. Done before) (KeptIn before)
  unfolding After
  next_header true h = Hoare-pure tt (λ r d. d)
  next_header false h = h

  receive_loop-Done :
      (fuel : ℕ)
      → Asserts (Between before) (receive_loop no_fuel fuel) (λ _. Done before) (KeptIn before)
  unfolding receive_loop
  receive_loop-Done zero = Hoare-fail out_of_fuel (λ r b. b.kept)
  receive_loop-Done (suc fuel) = Hoare-bind (quietly Quiet-check_context) λ _.
      Hoare-bind (quietly (Quiet-on_wire read_header))
        λ h. Hoare-bind (on_header-After h) λ over. next_header over (receive_loop-Done fuel)

pub Quiet-request : (initial : Option Header) → Quiet (request initial)
unfolding request
Quiet-request none = Quiet-on_wire read_header
Quiet-request (some h) = Quiet-pure h

pub receive_body-Done :
    (before : Disk) (initial : Option Header)
    → Asserts (Between before) (receive_body no_fuel initial) (λ _. Done before) (KeptIn before)
unfolding receive_body
receive_body-Done before initial = Hoare-bind (quietly before Quiet-system_call) λ _.
    Hoare-bind (quietly before (Quiet-request initial)) λ h.
      Hoare-if (not (h.kind == zrqinit)) (λ _. Hoare-fail (unexpected_kind h.kind) (λ r b. b.kept))
        λ _. Hoare-bind (quietly before (Quiet-reply ready)) λ _.
          Hoare-gets (λ r. suc (length r.wire.input))
            λ fuel. Hoare-before (λ r p. p.0) (receive_loop-Done before fuel)

-- `case ZEOF`, in a state that the session can be in between two headers: without an error the file
-- is closed, and what is stored under its name is a regular file of the announced size. With an error
-- the directory is kept all the same.
pub on_eof_whole :
    (before : Disk) (h : Header) (r : Receiver)
    → Between before r.local
    → Post (λ _ s. Complete before s.local) (λ s. Kept before s.disk) (on_eof h r)
on_eof_whole before h r = (on_eof-Complete before h).at r
