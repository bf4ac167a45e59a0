-- ===== src/Zmodem/Receive/Handles.antt =====
-- Which file handles the receiver has open.
use nex_shell.Prelude.{
  ℕ, zero, suc, ◌+◌, ◌≡◌, refl, ◌∙◌, ap, Bool, true, false, not, ◌||◌, Option, arith, ◌==◌, ltb,
  Bytes, length, Result, ok, err, Hoare-pure, Hoare-fail, Hoare-if, Hoare-bind, Hoare-gets,
  Hoare-before, pure, ◌>>◌,
}
use nex_shell.Zmodem.Data.{read_data}
use nex_shell.Zmodem.Disk.{lookup}
use nex_shell.Zmodem.Files.{parse_metadata}
use nex_shell.Zmodem.Headers.{read_header}
use nex_shell.Zmodem.Receive.{
  Local, Receive, no_fuel, ready, held, let_go, take_hold, shut_file, set_local, created, create,
  opened_file, on_file, appended, write_file, data_step, data_loop, on_data, on_eof, on_fin,
  on_header, receive_loop, receive_body, system_call, reply,
}
use nex_shell.Zmodem.Receive.Files.{Quiet-resume_existing}
use nex_shell.Zmodem.Receive.Loop.{Quiet-final_loop, Quiet-request}
use nex_shell.Zmodem.Receive.Quiet.{
  Quiet, Quiet-on_wire, Quiet-try_wire, Quiet-system_call, Quiet-check_context, Quiet-reply,
  Quiet-report, Quiet-acknowledge, Asserts, Quiet-Asserts, set_local-Asserts, or_error-Asserts,
}
use nex_shell.Zmodem.Wire.{
  Error, data_without_file, unexpected_data_position, exceeds_size, incomplete_file,
  ended_before_completion, remote_aborted, unexpected_kind, out_of_fuel, zrqinit, zsinit, zfile,
  zdata, zeof, zfin, zabort, zack, zrpos, zcrce, zcrcw, Header, position, position_of,
}

-- The handles that are open are the one of the variable, if it holds one, and those that were replaced in it.
abbrev pub Accounted : Local → Type 0
Accounted l = l.handles ≡ l.lost + held l.file

-- what keeps that, beside an error too
abbrev pub Balanced : {A : Type 0} → Receive A → Type 0
Balanced m = Asserts Accounted m (λ _. Accounted) Accounted

quietly : {A : Type 0} {m : Receive A} → Quiet m → Balanced m
quietly q = Quiet-Asserts Accounted Accounted q (λ l a. a)

abbrev Without : Local → Type 0
Without l = Accounted l × (l.file ≡ false)

abbrev With : Local → Type 0
With l = Accounted l × (l.file ≡ true)

opening : (meta name : Bytes) (size : ℕ) → Balanced (opened_file meta name size)
unfolding opened_file create
opening meta name size =
    Hoare-bind
      (set_local-Asserts Accounted Accounted Accounted
        (λ l. record l { name = name; size = size; position = 0 }) (λ l a. a))
      λ _. Hoare-bind (quietly Quiet-system_call) λ _.
        Hoare-gets (λ r. lookup name r.disk)
          λ existing.
            Hoare-before (λ r p. p.0)
              (Hoare-bind (quietly (Quiet-resume_existing meta size existing)) λ at.
                Hoare-bind
                  (set_local-Asserts Accounted Accounted Accounted (λ l. record l { position = at })
                    (λ l a. a))
                  λ _. assigned at)
  where
    assigned :
        (at : ℕ)
        → Balanced (do
          set_local let_go
          system_call
          create name
          set_local take_hold
          system_call
          reply (position zrpos at))
    assigned at =
        Hoare-bind
          (set_local-Asserts Accounted Without Accounted let_go (λ l a. (a ∙ omega arith, refl)))
          λ _. Hoare-bind (Quiet-Asserts Without Accounted Quiet-system_call (λ l a. a.0)) λ _.
            Hoare-bind
              (set_local-Asserts Without Without Accounted
                (λ l. record l { disk = created name (lookup name l.disk) l.disk }) (λ l a. a))
              λ _.
                Hoare-bind
                  (set_local-Asserts Without Accounted Accounted take_hold
                    (λ l a. let none_held = ap held a.1 in let e = a.0 in omega arith))
                  λ _.
                    Hoare-bind (quietly Quiet-system_call)
                      λ _. quietly (Quiet-reply (position zrpos at))

on_file-Balanced : (h : Header) → Balanced (on_file h)
unfolding on_file
on_file-Balanced h = Hoare-bind (quietly (Quiet-on_wire (read_data h.crc32))) λ packet.
    or_error-Asserts Accounted (λ _. Accounted) Accounted (parse_metadata packet.0)
      (λ a e. opening packet.0 a.0 a.1) (λ l a. a)

write_file-Balanced : (b : Bytes) → Balanced (write_file b)
unfolding write_file
write_file-Balanced b =
    Hoare-bind
      (set_local-Asserts Accounted Accounted Accounted
        (λ l. record l {
          disk = appended (lookup l.name l.disk) l b;
          position = l.position + length b;
        })
        (λ l a. a))
      λ _. quietly Quiet-report

data_step-Balanced :
    (again : Receive Unit) (x : Result Error (Bytes × ℕ))
    → Balanced again
    → Balanced (data_step again x)
unfolding data_step
data_step-Balanced again (err e) h =
    Hoare-gets (λ r. r.position)
      λ at. Hoare-before (λ r p. p.0) (quietly (Quiet-reply (position zrpos at)))
data_step-Balanced again (ok (b, end)) h =
    Hoare-gets (λ r. not (ltb r.size (r.position + length b)))
      λ fits.
        Hoare-before (λ r p. p.0)
          (Hoare-if (not fits) (λ _. Hoare-fail exceeds_size (λ r a. a))
            λ _. Hoare-bind (quietly Quiet-system_call) λ _. Hoare-bind (write_file-Balanced b) λ _.
              Hoare-bind (quietly (Quiet-acknowledge end)) λ _.
                Hoare-if (end == zcrce || end == zcrcw) (λ _. Hoare-pure tt (λ r a. a)) (λ _. h))

data_loop-Balanced : (fuel : ℕ) (crc32 : Bool) → Balanced (data_loop no_fuel fuel crc32)
unfolding data_loop
data_loop-Balanced zero crc32 = Hoare-fail out_of_fuel (λ r a. a)
data_loop-Balanced (suc fuel) crc32 =
    Hoare-bind (quietly (Quiet-try_wire (read_data crc32))) λ packet.
      data_step-Balanced (data_loop no_fuel fuel crc32) packet (data_loop-Balanced fuel crc32)

on_data-Balanced : (h : Header) → Balanced (on_data no_fuel h)
unfolding on_data
on_data-Balanced h =
    Hoare-gets (λ r. r)
      λ r.
        Hoare-before (λ s p. p.0)
          (Hoare-if (not r.file) (λ _. Hoare-fail data_without_file (λ s a. a))
            λ _.
              Hoare-if (not (position_of h == r.position))
                (λ _. Hoare-fail unexpected_data_position (λ s a. a))
                λ _. data_loop-Balanced (suc (length r.wire.input)) h.crc32)

on_eof-Balanced : (h : Header) → Balanced (on_eof h)
unfolding on_eof
on_eof-Balanced h =
    Hoare-gets (λ r. r)
      λ r.
        Hoare-if (not r.file || not (position_of h == r.position) || not (r.position == r.size))
          (λ _. Hoare-fail incomplete_file (λ s p. p.0))
          λ fine.
            Hoare-before {P' = λ s. With s.local}
              (λ s p. (p.0, ap (λ q. q.file) p.1 ∙ ground arith))
              (Hoare-bind (Quiet-Asserts With Accounted Quiet-system_call (λ l a. a.0)) λ _.
                Hoare-bind (Quiet-Asserts With Accounted Quiet-system_call (λ l a. a.0)) λ _.
                  Hoare-bind
                    (set_local-Asserts With Accounted Accounted shut_file
                      (λ l a. let one = ap held a.1 in let e = a.0 in omega arith))
                    λ _. quietly (Quiet-reply ready))

on_fin-Balanced : Balanced on_fin
unfolding on_fin
on_fin-Balanced =
    Hoare-gets (λ r. r.file)
      λ open_file.
        Hoare-before (λ r p. p.0)
          (Hoare-if open_file (λ _. Hoare-fail ended_before_completion (λ r a. a))
            λ _.
              Hoare-bind (quietly (Quiet-reply (position zfin 0)))
                λ _. quietly (Quiet-final_loop 32))

then_pure : {A : Type 0} {m : Receive A} (b : Bool) → Balanced m → Balanced (m >> pure b)
then_pure b h = Hoare-bind h λ _. Hoare-pure b (λ r a. a)

on_header-Balanced : (h : Header) → Balanced (on_header no_fuel h)
unfolding on_header
on_header-Balanced h =
    Hoare-if (h.kind == zrqinit) (λ _. then_pure false (quietly (Quiet-reply ready)))
      λ _.
        Hoare-if (h.kind == zsinit)
          (λ _.
            Hoare-bind (quietly (Quiet-on_wire (read_data h.crc32)))
              λ _. then_pure false (quietly (Quiet-reply (position zack 1))))
          λ _.
            Hoare-if (h.kind == zfile) (λ _. then_pure false (on_file-Balanced h))
              λ _.
                Hoare-if (h.kind == zdata) (λ _. then_pure false (on_data-Balanced h))
                  λ _.
                    Hoare-if (h.kind == zeof) (λ _. then_pure false (on_eof-Balanced h))
                      λ _.
                        Hoare-if (h.kind == zfin) (λ _. then_pure true on_fin-Balanced)
                          λ _.
                            Hoare-if (h.kind == zabort) (λ _. Hoare-fail remote_aborted (λ r a. a))
                              λ _. Hoare-fail (unexpected_kind h.kind) (λ r a. a)

receive_loop-Balanced : (fuel : ℕ) → Balanced (receive_loop no_fuel fuel)
unfolding receive_loop
receive_loop-Balanced zero = Hoare-fail out_of_fuel (λ r a. a)
receive_loop-Balanced (suc fuel) = Hoare-bind (quietly Quiet-check_context) λ _.
    Hoare-bind (quietly (Quiet-on_wire read_header)) λ h.
      Hoare-bind (on_header-Balanced h)
        λ over. Hoare-if over (λ _. Hoare-pure tt (λ r a. a)) (λ _. receive_loop-Balanced fuel)

pub receive_body-Balanced : (initial : Option Header) → Balanced (receive_body no_fuel initial)
unfolding receive_body
receive_body-Balanced initial = Hoare-bind (quietly Quiet-system_call) λ _.
    Hoare-bind (quietly (Quiet-request initial)) λ h.
      Hoare-if (not (h.kind == zrqinit)) (λ _. Hoare-fail (unexpected_kind h.kind) (λ r a. a))
        λ _. Hoare-bind (quietly (Quiet-reply ready)) λ _.
          Hoare-gets (λ r. suc (length r.wire.input))
            λ fuel. Hoare-before (λ r p. p.0) (receive_loop-Balanced fuel)
