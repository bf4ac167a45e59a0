-- ===== src/Zmodem/Receive/Fuel.antt =====
-- The loops of `Receive` end: each round takes a byte at least of what the peer has sent.
use mathlib.Core.Path.{fun_ext}
use nex_shell.Prelude.{
  ℕ, zero, suc, ◌+◌, ◌<◌, ◌≡◌, refl, ap, Bool, true, false, not, ◌||◌, Option, arith, ◌==◌, ltb,
  if◌then◌else◌, Bytes, length, Result, ok, err, pure, fail, gets, continue, ◌>>=◌, ◌>>◌,
}
use nex_shell.Zmodem.Data.Reads.{Takes-read_data}
use nex_shell.Zmodem.Headers.Reads.{Takes-read_header}
use nex_shell.Zmodem.Receive.{
  Receiver, Receive, no_fuel, on_wire, caught, try_wire, system_call, reply, ready, data_step,
  data_loop, on_data, on_header, receive_loop, request, receive_body,
}
use nex_shell.Zmodem.Wire.{
  Error, Codec, Wire, zrqinit, zcrce, zcrcw, Header, position_of, unexpected_kind, exceeds_size,
  data_without_file, unexpected_data_position,
}
use nex_shell.Zmodem.Wire.Reads.{Takes}
use nex_shell.Zmodem.Receive.Lean.{
  left, Lean, Lean-acknowledge, Lean-check_context, Lean-gets, Lean-on_header, Lean-system_call,
  Lean-write_file,
}

-- Two actions that agree as long as the input is shorter than `bound`.
record Same {A : Type 0} (bound : ℕ) (m n : Receive A) : Type 0 where
  pub at : (r : Receiver) → left r < bound → m r ≡ n r

module _ {A : Type 0} (bound : ℕ) where
  Same-refl : (m : Receive A) → Same bound m m
  Same-refl m = record { at = λ r h. refl }

  Same-if :
      (b : Bool) (m : Receive A) {n n' : Receive A}
      → Same bound n n'
      → Same bound (if b then m else n) (if b then m else n')
  Same-if true m q = Same-refl m
  Same-if false m q = q

Same-never : {A : Type 0} (m n : Receive A) → Same 0 m n
Same-never m n = record { at = λ r h. let no : ⊥ = omega arith in absurd no }

if_at :
    {A : Type 0} (b : Bool) (m n n' : Receive A) (r : Receiver)
    → n r ≡ n' r
    → (if b then m else n) r ≡ (if b then m else n') r
if_at true m n n' r e = refl
if_at false m n n' r e = e

module _ {A B : Type 0} (bound : ℕ) where
  continue-Same :
      (x : Result Error A × Receiver) (f g : A → Receive B)
      → ((a : A) → x.0 ≡ ok a → left x.1 < bound)
      → ((a : A) → Same bound (f a) (g a))
      → continue x f ≡ continue x g
  continue-Same (ok a, r) f g p q = (q a).at r (p a refl)
  continue-Same (err e, r) f g p q = refl

  Same-bind :
      {m : Receive A} {f g : A → Receive B}
      → Lean m
      → ((a : A) → Same bound (f a) (g a))
      → Same bound (m >>= f) (m >>= g)
  Same-bind {m} {f} {g} p q = record {
    at = λ r h. continue-Same (m r) f g (λ a e. omega (arith, p.at r)) q;
  }

  -- Behind a read the input is shorter.
  Same-on_wire :
      {m : Wire A} {f g : A → Receive B}
      → Takes m
      → ((a : A) → Same bound (f a) (g a))
      → Same (suc bound) (on_wire m >>= f) (on_wire m >>= g)
  unfolding on_wire
  Same-on_wire {m} {f} {g} p q = record {
    at = λ r h. continue-Same (on_wire m r) f g (λ a e. omega (arith, p.shorter r.wire a e)) q;
  }

  continue-caught :
      (x : Result Error A × Codec) (r : Receiver) (f g : Result Error A → Receive B)
      → ((a : A) → x.0 ≡ ok a → length x.1.input < bound)
      → ((e : Error) → f (err e) ≡ g (err e))
      → ((a : A) → Same bound (f (ok a)) (g (ok a)))
      → continue (caught r x) f ≡ continue (caught r x) g
  continue-caught (ok a, c) r f g p e q = (q a).at (record r { wire = c }) (p a refl)
  continue-caught (err e, c) r f g p same q = ap (λ k. k (record r { wire = c })) (same e)

  -- A loop that goes on behind an error without reading is no such read.
  Same-try_wire :
      {m : Wire A} (f g : Result Error A → Receive B)
      → Takes m
      → ((e : Error) → f (err e) ≡ g (err e))
      → ((a : A) → Same bound (f (ok a)) (g (ok a)))
      → Same (suc bound) (try_wire m >>= f) (try_wire m >>= g)
  unfolding try_wire
  Same-try_wire {m} f g p e q = record {
    at = λ r h. continue-caught (m r.wire) r f g (λ a k. omega (arith, p.shorter r.wire a k)) e q;
  }

module _ (spent spent' : Receive Unit) where
  data_step-Same :
      (bound : ℕ) {m n : Receive Unit} (b : Bytes) (end : ℕ)
      → Same bound m n
      → Same bound (data_step m (ok (b, end))) (data_step n (ok (b, end)))
  unfolding data_step
  data_step-Same bound b end h =
      Same-bind bound (Lean-gets (λ r. not (ltb r.size (r.position + length b)))) λ fits.
        Same-if bound (not fits) (fail exceeds_size) (
          Same-bind bound Lean-system_call λ _. Same-bind bound (Lean-write_file b) λ _.
            Same-bind bound (Lean-acknowledge end)
              λ _. Same-if bound (end == zcrce || end == zcrcw) (pure tt) h)

  data_loop-Same :
      (fuel : ℕ) (crc32 : Bool)
      → Same fuel (data_loop spent fuel crc32) (data_loop spent' fuel crc32)
  unfolding data_loop data_step
  data_loop-Same zero crc32 = Same-never _ _
  data_loop-Same (suc fuel) crc32 =
      Same-try_wire fuel (data_step (data_loop spent fuel crc32))
        (data_step (data_loop spent' fuel crc32)) (Takes-read_data crc32) (λ e. refl)
        λ x. data_step-Same fuel x.0 x.1 (data_loop-Same fuel crc32)

  on_data-eq : (h : Header) (r : Receiver) → on_data spent h r ≡ on_data spent' h r
  unfolding on_data
  on_data-eq h r = if_at (not r.file) (fail data_without_file) _ _ r (
      if_at (not (position_of h == r.position)) (fail unexpected_data_position) _ _ r
        ((data_loop-Same (suc (length r.wire.input)) h.crc32).at r (omega arith)))

  on_header-eq : (h : Header) → on_header spent h ≡ on_header spent' h
  unfolding on_header
  on_header-eq h =
      let same : on_data spent h ≡ on_data spent' h = fun_ext (on_data-eq h) in rw same refl

module _ (spent : Receive Unit) where
  receive_loop-Same : (fuel : ℕ) → Same fuel (receive_loop spent fuel) (receive_loop no_fuel fuel)
  unfolding receive_loop
  receive_loop-Same zero = Same-never _ _
  receive_loop-Same (suc fuel) = Same-bind (suc fuel) Lean-check_context λ _.
      Same-on_wire fuel Takes-read_header λ h. rw (on_header-eq spent no_fuel h) (
        Same-bind fuel (Lean-on_header h)
          λ over. Same-if fuel over (pure tt) (receive_loop-Same fuel))

  loops_eq :
      (gets left >>= λ n. receive_loop spent (suc n))
      ≡ (gets left >>= λ n. receive_loop no_fuel (suc n))
  loops_eq = fun_ext λ r. (receive_loop-Same (suc (left r))).at r (omega arith)

  -- The bounds put on the loops of `Receive` cut nothing short: a session never gets to the end of
  -- them, whatever the peer sends, so that its result does not depend on what would be done there.
  pub receive_body_fuel :
      (initial : Option Header) (r : Receiver)
      → receive_body spent initial r ≡ receive_body no_fuel initial r
  unfolding receive_body
  receive_body_fuel initial r =
      ap
        (λ k.
          (do
            system_call
            h ← request initial
            if not (h.kind == zrqinit) then fail (unexpected_kind h.kind) else do reply ready; k)
            r)
        loops_eq
