-- ===== src/Zmodem/Receive/Quiet.antt =====
-- Steps of the receiver that leave its variables and the directory alone, and assertions about those.
use nex_shell.Prelude.{
  ℕ, zero, suc, ◌≡◌, refl, ◌∙◌, sym, Bool, true, false, not, ◌||◌, Option, none, some, List, [],
  ◌∷◌, ◌==◌, if◌then◌else◌, Bytes, bytes_equal, Result, ok, err, pure, fail, gets, continue, ◌>>=◌,
  Post, Hoare,
}
use mathlib.Core.Path.{subst}
use nex_shell.Zmodem.Data.{read_data}
use nex_shell.Zmodem.Headers.{read_header}
use nex_shell.Zmodem.Receive.{
  Receiver, Local, Receive, on_wire, try_wire, take_context, check_context, take_system,
  system_call, reply, read_resume_crc, acknowledge, report, set_local, or_error,
}
use nex_shell.Zmodem.Wire.{
  Error, Wire, Header, unexpected_kind, metadata_changed, too_many_repeats, zcrc, zfile, zack,
  position, zcrcq, zcrcw,
}

pub record Quiet {A : Type 0} (m : Receive A) : Type 0 where
  pub at : (r : Receiver) → (m r).1.local ≡ r.local

module _ {A : Type 0} where
  pub Quiet-pure : (a : A) → Quiet (pure a)
  Quiet-pure a = record { at = λ r. refl }

  pub Quiet-fail : (e : Error) → Quiet (fail {A = A} e)
  Quiet-fail e = record { at = λ r. refl }

  pub Quiet-gets : (f : Receiver → A) → Quiet (gets f)
  Quiet-gets f = record { at = λ r. refl }

  pub Quiet-if : (b : Bool) {m n : Receive A} → Quiet m → Quiet n → Quiet (if b then m else n)
  Quiet-if true p q = p
  Quiet-if false p q = q

  pub Quiet-on_wire : (m : Wire A) → Quiet (on_wire m)
  unfolding on_wire
  Quiet-on_wire m = record { at = λ r. refl }

  pub Quiet-try_wire : (m : Wire A) → Quiet (try_wire m)
  unfolding try_wire
  Quiet-try_wire m = record { at = λ r. refl }

module _ {A B : Type 0} where
  continue-Quiet :
      (l : Local) (x : Result Error A × Receiver) (f : A → Receive B)
      → x.1.local ≡ l
      → ((a : A) → Quiet (f a))
      → (continue x f).1.local ≡ l
  continue-Quiet l (ok a, r) f p q = (q a).at r ∙ p
  continue-Quiet l (err e, r) f p q = p

  pub Quiet-bind :
      {m : Receive A} {f : A → Receive B} → Quiet m → ((a : A) → Quiet (f a)) → Quiet (m >>= f)
  Quiet-bind {m} {f} p q = record { at = λ r. continue-Quiet r.local (m r) f (p.at r) q }

take_context-local :
    (answers : List (Option Error)) (r : Receiver) → (take_context answers r).1.local ≡ r.local
unfolding take_context
take_context-local [] r = refl
take_context-local (none ∷ later) r = refl
take_context-local (some e ∷ later) r = refl

pub Quiet-check_context : Quiet check_context
unfolding check_context
Quiet-check_context = record { at = λ r. take_context-local r.contexts r }

take_system-local :
    (answers : List (Option Error)) (r : Receiver) → (take_system answers r).1.local ≡ r.local
unfolding take_system
take_system-local [] r = refl
take_system-local (none ∷ later) r = refl
take_system-local (some e ∷ later) r = refl

pub Quiet-system_call : Quiet system_call
unfolding system_call
Quiet-system_call = record { at = λ r. take_system-local r.system r }

pub Quiet-reply : (h : Header) → Quiet (reply h)
unfolding reply
Quiet-reply h = record { at = λ r. (Quiet-on_wire _).at r }

pub Quiet-report : Quiet report
unfolding report
Quiet-report = record { at = λ r. refl }

pub Quiet-acknowledge : (end : ℕ) → Quiet (acknowledge end)
unfolding acknowledge
Quiet-acknowledge end = Quiet-bind {A = Receiver} (Quiet-gets (λ r. r)) λ r.
    Quiet-if (end == zcrcq || end == zcrcw) (Quiet-reply (position zack r.position)) (Quiet-pure tt)

pub Quiet-read_resume_crc : (repeats : ℕ) (meta : Bytes) → Quiet (read_resume_crc repeats meta)
unfolding read_resume_crc
Quiet-read_resume_crc zero meta = Quiet-fail too_many_repeats
Quiet-read_resume_crc (suc repeats) meta = Quiet-bind Quiet-check_context λ _.
    Quiet-bind (Quiet-on_wire read_header) λ answer.
      Quiet-if (answer.kind == zcrc) (Quiet-pure answer) (
        Quiet-if (not (answer.kind == zfile)) (Quiet-fail (unexpected_kind answer.kind)) (
          Quiet-bind (Quiet-on_wire (read_data answer.crc32)) λ again.
            Quiet-if (not (bytes_equal again.0 meta)) (Quiet-fail metadata_changed)
              (Quiet-read_resume_crc repeats meta)))

-- `m` takes the variables from `P` to `Q`, or to `F` beside an error.
abbrev pub Asserts :
    {A : Type 0} → (Local → Type 0) → Receive A → (A → Local → Type 0) → (Local → Type 0) → Type 0
Asserts P m Q F = Hoare (λ r. P r.local) m (λ a r. Q a r.local) (λ r. F r.local)

module _ {A : Type 0} where
  quiet-Post :
      (P F : Local → Type 0) (x : Result Error A × Receiver)
      → P x.1.local
      → (P x.1.local → F x.1.local)
      → Post {A = A} (λ _ r. P r.local) (λ r. F r.local) x
  quiet-Post P F (ok a, r) p f = p
  quiet-Post P F (err e, r) p f = f p

  pub Quiet-Asserts :
      (P F : Local → Type 0) {m : Receive A}
      → Quiet m
      → ((l : Local) → P l → F l)
      → Asserts P m (λ _. P) F
  Quiet-Asserts P F {m} q f = record {
    at = λ r p. quiet-Post P F (m r) (subst P (sym (q.at r)) p) (f (m r).1.local);
  }

pub set_local-Asserts :
    (P Q F : Local → Type 0) (f : Local → Local)
    → ((l : Local) → P l → Q (f l))
    → Asserts P (set_local f) (λ _. Q) F
set_local-Asserts P Q F f h = record { at = λ r p. h r.local p }

module _ {A B : Type 0} (P : Local → Type 0) (R : B → Local → Type 0) (F : Local → Type 0) where
  -- In the rest the value is that of the result.
  pub or_error-Asserts :
      (x : Result Error A) {f : A → Receive B}
      → ((a : A) → x ≡ ok a → Asserts P (f a) R F)
      → ((l : Local) → P l → F l)
      → Asserts P (or_error x >>= f) R F
  or_error-Asserts (ok a) h k = h a refl
  or_error-Asserts (err e) h k = record { at = λ r p. k r.local p }
