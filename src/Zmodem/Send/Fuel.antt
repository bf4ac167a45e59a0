-- ===== src/Zmodem/Send/Fuel.antt =====
-- The loop of `sendFile` over the packets ends: each round reads an answer.
use mathlib.Core.Path.{fun_ext}
use nex_shell.Prelude.{
  ℕ, zero, suc, ◌≤◌, ◌<◌, ◌≡◌, refl, ap, Bool, true, false, not, ◌||◌, Option, none, some, List, [],
  ◌∷◌, arith, ◌==◌, ltb, if◌then◌else◌, Bytes, length, take, drop, Result, ok, err, pure, fail,
  gets, continue, ◌>>=◌, ◌>>◌,
}
use nex_shell.Zmodem.Data.{data_packet, write_data}
use nex_shell.Zmodem.Disk.{Node, lookup}
use nex_shell.Zmodem.Files.{base, max_u32, metadata}
use nex_shell.Zmodem.Headers.{header_frame, write_header, read_header}
use nex_shell.Zmodem.Headers.Reads.{Takes-read_header}
use nex_shell.Zmodem.Send.{
  Sender, Send, on_wire, take_context, check_context, take_system, system_call, put, report,
  advance, on_answer, buffer_size, send_packet, await_start, send_data, send_content, send_node,
  send_file, send_files, send_body, no_fuel,
}
use nex_shell.Zmodem.Wire.{
  Error, Wire, unexpected_kind, incorrect_ack_position, invalid_restart_offset, too_many_retries,
  not_regular, invalid_resume_offset, zack, zrpos, zcrcw, zdata, zeof, zfile, zrinit, position,
  position_of, Header,
}
use nex_shell.Zmodem.Wire.Reads.{Takes, write-input}

abbrev left : Sender → ℕ
left s = length s.wire.input

-- what both runs have in common as long as the input is shorter than `bound`
record Same {A : Type 0} (bound : ℕ) (m n : Send A) : Type 0 where
  at : (s : Sender) → left s < bound → m s ≡ n s

-- Nothing comes back to the input.
record Lean {A : Type 0} (m : Send A) : Type 0 where
  at : (s : Sender) → left (m s).1 ≤ left s

module _ {A : Type 0} (bound : ℕ) where
  Same-refl : (m : Send A) → Same bound m m
  Same-refl m = record { at = λ s h. refl }

  Same-if :
      (b : Bool) {m m' n n' : Send A}
      → Same bound m m'
      → Same bound n n'
      → Same bound (if b then m else n) (if b then m' else n')
  Same-if true p q = p
  Same-if false p q = q

module _ {A B : Type 0} (bound : ℕ) where
  continue-Same :
      (x : Result Error A × Sender) (f g : A → Send B)
      → ((a : A) → x.0 ≡ ok a → left x.1 < bound)
      → ((a : A) → Same bound (f a) (g a))
      → continue x f ≡ continue x g
  continue-Same (ok a, s) f g p q = (q a).at s (p a refl)
  continue-Same (err e, s) f g p q = refl

  Same-bind :
      {m : Send A} {f g : A → Send B}
      → Lean m
      → ((a : A) → Same bound (f a) (g a))
      → Same bound (m >>= f) (m >>= g)
  Same-bind {m} {f} {g} p q = record {
    at = λ s h. continue-Same (m s) f g (λ a e. omega (arith, p.at s)) q;
  }

  -- Behind a read the input is shorter.
  Same-on_wire :
      {m : Wire A} {f g : A → Send B}
      → Takes m
      → ((a : A) → Same bound (f a) (g a))
      → Same (suc bound) (on_wire m >>= f) (on_wire m >>= g)
  unfolding on_wire
  Same-on_wire {m} {f} {g} p q = record {
    at = λ s h. continue-Same (on_wire m s) f g (λ a e. omega (arith, p.shorter s.wire a e)) q;
  }

take_context-Lean :
    (answers : List (Option Error)) (s : Sender) → left (take_context answers s).1 ≤ left s
unfolding take_context
take_context-Lean [] s = omega arith
take_context-Lean (none ∷ later) s = omega arith
take_context-Lean (some e ∷ later) s = omega arith

Lean-check_context : Lean check_context
unfolding check_context
Lean-check_context = record { at = λ s. take_context-Lean s.contexts s }

take_system-Lean :
    (answers : List (Option Error)) (s : Sender) → left (take_system answers s).1 ≤ left s
unfolding take_system
take_system-Lean [] s = omega arith
take_system-Lean (none ∷ later) s = omega arith
take_system-Lean (some e ∷ later) s = omega arith

Lean-system_call : Lean system_call
unfolding system_call
Lean-system_call = record { at = λ s. take_system-Lean s.system s }

Lean-put : (h : Header) → Lean (put h)
unfolding put on_wire write_header
Lean-put h = record { at = λ s. omega (arith, ap length (write-input (header_frame h) s.wire)) }

Lean-write_data : (b : Bytes) (end : ℕ) (crc32 : Bool) → Lean (on_wire (write_data b end crc32))
unfolding on_wire write_data
Lean-write_data b end crc32 = record {
  at = λ s. omega (arith, ap length (write-input (data_packet b end crc32) s.wire));
}

Lean-report : (name : Bytes) (done size : ℕ) → Lean (report name done size)
unfolding report
Lean-report name done size = record { at = λ s. omega arith }

module _ (bound : ℕ) {again again' : ℕ → ℕ → Send ℕ} where
  on_answer-Same :
      (name : Bytes) (size pos retries n : ℕ) (h : Header)
      → ((p k : ℕ) → Same bound (again p k) (again' p k))
      → Same bound
          (on_answer again name size pos retries n h)
          (on_answer again' name size pos retries n h)
  unfolding on_answer
  on_answer-Same name size pos retries n h q =
      Same-if bound (h.kind == zack)
        (Same-if bound (not (position_of h == advance pos n))
          (Same-refl bound (fail incorrect_ack_position))
          (Same-bind bound (Lean-report name (advance pos n) size) λ _. q (advance pos n) 0))
        (Same-if bound (h.kind == zrpos)
          (Same-if bound (ltb size (position_of h)) (Same-refl bound (fail invalid_restart_offset))
            (Same-if bound (ltb 20 (suc retries)) (Same-refl bound (fail too_many_retries))
              (q (position_of h) (suc retries))))
          (Same-refl bound (fail (unexpected_kind h.kind))))

  send_packet-Same :
      (name content : Bytes) (pos retries : ℕ) (chunk : Bytes)
      → ((p k : ℕ) → Same bound (again p k) (again' p k))
      → Same
          (suc bound)
          (send_packet again name content pos retries chunk)
          (send_packet again' name content pos retries chunk)
  unfolding send_packet
  send_packet-Same name content pos retries [] q = record { at = λ s h. refl }
  send_packet-Same name content pos retries (b ∷ chunk) q =
      Same-bind (suc bound) (Lean-put (position zdata pos)) λ _.
        Same-bind (suc bound) (Lean-write_data (b ∷ chunk) zcrcw false) λ _.
          Same-on_wire bound Takes-read_header
            λ h. on_answer-Same name (length content) pos retries (length (b ∷ chunk)) h q

module _ (spent : Send ℕ) where
  send_data-Same :
      (fuel : ℕ) (name content : Bytes) (pos retries : ℕ)
      → Same fuel
          (send_data spent fuel name content pos retries)
          (send_data no_fuel fuel name content pos retries)
  unfolding send_data
  send_data-Same zero name content pos retries = record {
    at = λ s h. let no : ⊥ = omega arith in absurd no;
  }
  send_data-Same (suc fuel) name content pos retries =
      Same-if (suc fuel) (not (ltb pos (length content))) (Same-refl (suc fuel) (pure pos)) (
        Same-bind (suc fuel) Lean-check_context λ _. Same-bind (suc fuel) Lean-system_call λ _.
          Same-bind (suc fuel) Lean-system_call λ _.
            send_packet-Same fuel name content pos retries (take buffer_size (drop pos content))
              (send_data-Same fuel name content))

  send_content-eq :
      (name content : Bytes) (start : Option ℕ)
      → send_content spent name content start ≡ send_content no_fuel name content start
  unfolding send_content
  send_content-eq name content none = refl
  send_content-eq name content (some start) =
      let loops : (gets left >>= λ n. send_data spent (suc n) name content start 0)
          ≡ (gets left >>= λ n. send_data no_fuel (suc n) name content start 0) =
        fun_ext λ s. (send_data-Same (suc (left s)) name content start 0).at s (omega arith) in
      ap
        (λ run. if ltb (length content) start then fail invalid_resume_offset else (do
          pos ← run
          put (position zeof pos)
          h ← on_wire read_header
          if not (h.kind == zrinit)
              then fail (unexpected_kind h.kind)
              else report name (length content) (length content)))
        loops

  send_node-eq :
      (name : Bytes) (found : Option Node)
      → send_node spent name found ≡ send_node no_fuel name found
  unfolding send_node
  send_node-eq name none = refl
  send_node-eq name (some node) =
      ap
        (λ run.
          if not node.regular || ltb max_u32 (length node.content) then fail not_regular else (do
            put (position zfile 0)
            on_wire (write_data (metadata (base name) (length node.content)) zcrcw false)
            start ← await_start 20 node.content
            run start))
        (fun_ext (send_content-eq name node.content))

  send_file-eq : (name : Bytes) → send_file spent name ≡ send_file no_fuel name
  unfolding send_file
  send_file-eq name =
      ap (λ run. do system_call; found ← gets (λ s. lookup name s.disk); system_call; run found)
        (fun_ext (send_node-eq name))

  send_files-eq : (names : List Bytes) → send_files spent names ≡ send_files no_fuel names
  unfolding send_files
  send_files-eq [] = refl
  send_files-eq (name ∷ names) = rw (send_file-eq name, send_files-eq names) refl

  -- The bound put on the loop of `sendFile` cuts nothing short: no file of a session gets to the end
  -- of it, whatever the peer sends, so that the result does not depend on what would be done there.
  pub send_body_fuel :
      (names : List Bytes) (initial : Option Header)
      → send_body spent names initial ≡ send_body no_fuel names initial
  unfolding send_body
  send_body_fuel names initial = rw (send_files-eq names) refl
