-- ===== src/Zmodem/Receive/Lean.antt =====
-- No step of `Receive` makes the input longer.
use nex_shell.Prelude.{
  ℕ, zero, suc, ◌+◌, ◌≤◌, ap, Bool, true, false, not, ◌||◌, Option, none, some, List, [], ◌∷◌,
  arith, ◌==◌, ltb, if◌then◌else◌, Bytes, length, Result, ok, err, pure, fail, gets, continue,
  ◌>>=◌,
}
use nex_shell.Zmodem.Data.{read_data}
use nex_shell.Zmodem.Data.Reads.{Takes-read_data}
use nex_shell.Zmodem.Disk.{Node}
use nex_shell.Zmodem.Headers.{header_frame, write_header, read_header}
use nex_shell.Zmodem.Headers.Reads.{Takes-read_header}
use nex_shell.Zmodem.Receive.{
  Local, Receiver, Receive, no_fuel, on_wire, try_wire, set_local, take_context, check_context,
  take_system, system_call, reply, or_error, read_resume_crc, resume_existing, create, opened_file,
  on_file, report, write_file, acknowledge, data_step, data_loop, on_data, on_eof, final_step,
  final_loop, on_fin, on_header,
}
use nex_shell.Zmodem.Wire.{Error, Wire, eof, zcrce, zcrcw, Header, exceeds_size, missing_final_oo}
use nex_shell.Zmodem.Wire.Reads.{Reads, Takes-Reads, Takes-raw, write-input}

abbrev pub left : Receiver → ℕ
left r = length r.wire.input

-- Nothing comes back to the input.
pub record Lean {A : Type 0} (m : Receive A) : Type 0 where
  pub at : (r : Receiver) → left (m r).1 ≤ left r

module _ {A : Type 0} where
  pub Lean-pure : (a : A) → Lean (pure a)
  Lean-pure a = record { at = λ r. omega arith }

  pub Lean-fail : (e : Error) → Lean (fail {A = A} e)
  Lean-fail e = record { at = λ r. omega arith }

  pub Lean-gets : (f : Receiver → A) → Lean (gets f)
  Lean-gets f = record { at = λ r. omega arith }

  pub Lean-if : (b : Bool) {m n : Receive A} → Lean m → Lean n → Lean (if b then m else n)
  Lean-if true p q = p
  Lean-if false p q = q

  pub Lean-on_wire : {m : Wire A} → Reads m → Lean (on_wire m)
  unfolding on_wire
  Lean-on_wire p = record { at = λ r. (p.later r.wire).input_le }

  pub Lean-try_wire : {m : Wire A} → Reads m → Lean (try_wire m)
  unfolding try_wire
  Lean-try_wire p = record { at = λ r. (p.later r.wire).input_le }

  pub Lean-or_error : (x : Result Error A) → Lean (or_error x)
  Lean-or_error (ok a) = Lean-pure a
  Lean-or_error (err e) = Lean-fail e

module _ {A B : Type 0} where
  continue-Lean :
      (n : ℕ) (x : Result Error A × Receiver) (f : A → Receive B)
      → left x.1 ≤ n
      → ((a : A) → Lean (f a))
      → left (continue x f).1 ≤ n
  continue-Lean n (ok a, r) f p q = omega (arith, (q a).at r)
  continue-Lean n (err e, r) f p q = p

  pub Lean-bind :
      {m : Receive A} {f : A → Receive B} → Lean m → ((a : A) → Lean (f a)) → Lean (m >>= f)
  Lean-bind {m} {f} p q = record { at = λ r. continue-Lean (left r) (m r) f (p.at r) q }

pub Lean-set_local : (f : Local → Local) → Lean (set_local f)
Lean-set_local f = record { at = λ r. omega arith }

take_context-Lean :
    (answers : List (Option Error)) (r : Receiver) → left (take_context answers r).1 ≤ left r
unfolding take_context
take_context-Lean [] r = omega arith
take_context-Lean (none ∷ later) r = omega arith
take_context-Lean (some e ∷ later) r = omega arith

pub Lean-check_context : Lean check_context
unfolding check_context
Lean-check_context = record { at = λ r. take_context-Lean r.contexts r }

take_system-Lean :
    (answers : List (Option Error)) (r : Receiver) → left (take_system answers r).1 ≤ left r
unfolding take_system
take_system-Lean [] r = omega arith
take_system-Lean (none ∷ later) r = omega arith
take_system-Lean (some e ∷ later) r = omega arith

pub Lean-system_call : Lean system_call
unfolding system_call
Lean-system_call = record { at = λ r. take_system-Lean r.system r }

pub Lean-reply : (h : Header) → Lean (reply h)
unfolding reply on_wire write_header
Lean-reply h = record { at = λ r. omega (arith, ap length (write-input (header_frame h) r.wire)) }

pub Lean-read_data : (crc32 : Bool) → Lean (on_wire (read_data crc32))
Lean-read_data crc32 = Lean-on_wire (Takes-Reads (Takes-read_data crc32))

pub Lean-read_header : Lean (on_wire read_header)
Lean-read_header = Lean-on_wire (Takes-Reads Takes-read_header)

ruleset lean_rules = (
  Lean-pure, Lean-fail, Lean-gets, Lean-if, Lean-or_error, Lean-bind, Lean-set_local,
  Lean-check_context, Lean-system_call, Lean-reply, Lean-read_data, Lean-read_header,
)

pub Lean-read_resume_crc : (repeats : ℕ) (meta : Bytes) → Lean (read_resume_crc repeats meta)
unfolding read_resume_crc
Lean-read_resume_crc zero meta = search lean_rules
Lean-read_resume_crc (suc repeats) meta =
    let again = Lean-read_resume_crc repeats meta in search lean_rules depth 12

pub Lean-resume_existing :
    (meta : Bytes) (size : ℕ) (existing : Option Node) → Lean (resume_existing meta size existing)
unfolding resume_existing
Lean-resume_existing meta size none = search lean_rules
Lean-resume_existing meta size (some node) = search (lean_rules, Lean-read_resume_crc) depth 12

pub Lean-on_file : (h : Header) → Lean (on_file h)
unfolding on_file opened_file create
Lean-on_file h = search (lean_rules, Lean-resume_existing) depth 16

pub Lean-write_file : (b : Bytes) → Lean (write_file b)
unfolding write_file report
Lean-write_file b = record { at = λ r. omega arith }

pub Lean-acknowledge : (end : ℕ) → Lean (acknowledge end)
unfolding acknowledge
Lean-acknowledge end = search lean_rules depth 12

pub Lean-data_step :
    (again : Receive Unit) (x : Result Error (Bytes × ℕ)) → Lean again → Lean (data_step again x)
unfolding data_step
Lean-data_step again (err e) q = search lean_rules
Lean-data_step again (ok (b, end)) q =
    Lean-bind (Lean-gets (λ r. not (ltb r.size (r.position + length b)))) λ fits.
      Lean-if (not fits) (Lean-fail exceeds_size) (
        Lean-bind Lean-system_call λ _. Lean-bind (Lean-write_file b) λ _.
          Lean-bind (Lean-acknowledge end)
            λ _. Lean-if (end == zcrce || end == zcrcw) (Lean-pure tt) q)

pub Lean-data_loop : (fuel : ℕ) (crc32 : Bool) → Lean (data_loop no_fuel fuel crc32)
unfolding data_loop
Lean-data_loop zero crc32 = search lean_rules
Lean-data_loop (suc fuel) crc32 =
    Lean-bind (Lean-try_wire (Takes-Reads (Takes-read_data crc32)))
      λ x. Lean-data_step (data_loop no_fuel fuel crc32) x (Lean-data_loop fuel crc32)

Lean-final_step :
    (again : Receive Unit) (x : Result Error ℕ) → Lean again → Lean (final_step again x)
unfolding final_step
Lean-final_step again (err e) q = elim e as (λ k. Lean (final_step again (err k))) [
  | eof ↦ Lean-pure tt
  | _ ↦ Lean-fail _
]
Lean-final_step again (ok b) q = Lean-if (not (b == b'O')) q (
    Lean-bind (Lean-on_wire (Takes-Reads Takes-raw))
      λ next. Lean-if (next == b'O') (Lean-pure tt) q)

pub Lean-final_loop : (count : ℕ) → Lean (final_loop count)
unfolding final_loop
Lean-final_loop zero = Lean-fail missing_final_oo
Lean-final_loop (suc count) =
    Lean-bind (Lean-try_wire (Takes-Reads Takes-raw))
      λ x. Lean-final_step (final_loop count) x (Lean-final_loop count)

pub Lean-on_data : (h : Header) → Lean (on_data no_fuel h)
unfolding on_data
Lean-on_data h = search (lean_rules, Lean-data_loop) depth 10

pub Lean-on_eof : (h : Header) → Lean (on_eof h)
unfolding on_eof
Lean-on_eof h = search lean_rules depth 12

pub Lean-on_fin : Lean on_fin
unfolding on_fin
Lean-on_fin = search (lean_rules, Lean-final_loop) depth 10

pub Lean-on_header : (h : Header) → Lean (on_header no_fuel h)
unfolding on_header
Lean-on_header h =
    search (lean_rules, Lean-on_file, Lean-on_data, Lean-on_eof, Lean-on_fin) depth 16
