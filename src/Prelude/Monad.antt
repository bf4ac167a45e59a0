-- ===== src/Prelude/Monad.antt =====
-- Go functions that change state and return a value or an error. What was done before an error
-- stays done, so the state comes back beside the error too.

use mathlib.Core.Path.{◌≡◌, refl, subst}
use mathlib.Core.Bool.{Bool, true, false}
use nex_shell.Prelude.Tests.{if◌then◌else◌}

pub data Result {ℓ κ} (E : Type ℓ) (A : Type κ) : Type (ℓ ⊔ κ) where
  ok : A → Result E A
  err : E → Result E A

abbrev pub Exec : Type 0 → Type 0 → Type 0 → Type 0
Exec E S A = S → Result E A × S

module _ {E S A : Type 0} where
  abbrev pub pure : A → Exec E S A
  pure a s = (ok a, s)

  abbrev pub fail : E → Exec E S A
  fail e s = (err e, s)

abbrev pub gets : {E S A : Type 0} → (S → A) → Exec E S A
gets f s = (ok (f s), s)

abbrev pub modify : {E S : Type 0} → (S → S) → Exec E S (Unit {0})
modify f s = (ok tt, f s)

module _ {E S A B : Type 0} where
  abbrev pub continue : Result E A × S → (A → Exec E S B) → Result E B × S
  continue (ok a, s) f = f a s
  continue (err e, s) f = (err e, s)

  infixl 5 ◌>>=◌ ◌>>◌
  abbrev pub ◌>>=◌ : Exec E S A → (A → Exec E S B) → Exec E S B
  ◌>>=◌ m f s = continue (m s) f

  abbrev pub ◌>>◌ : Exec E S A → Exec E S B → Exec E S B
  m >> k = m >>= λ _. k

module _ {E S A B : Type 0} where
  continue-eq-ok :
      (r : Result E A × S) (f : A → Exec E S B) {b : B}
      → (continue r f).0 ≡ ok b
      → (a : A) × (r.0 ≡ ok a) × ((f a r.1).0 ≡ ok b)
  continue-eq-ok (ok a, s) f h = (a, refl, h)
  continue-eq-ok (err e, s) f h = cc

  -- A chain that succeeds has a first step that does.
  pub bind-eq-ok :
      (m : Exec E S A) (f : A → Exec E S B) (s : S) {b : B}
      → ((m >>= f) s).0 ≡ ok b
      → (a : A) × ((m s).0 ≡ ok a) × ((f a (m s).1).0 ≡ ok b)
  bind-eq-ok m f s = continue-eq-ok (m s) f

-- Whatever `m` returns, from any state, satisfies `P`.
pub record Yields {E S A : Type 0} (P : A → Type 0) (m : Exec E S A) : Type 0 where
  pub at : (s : S) (a : A) → (m s).0 ≡ ok a → P a

module _ {E S A : Type 0} {P : A → Type 0} where
  pub Yields-pure : (a : A) → P a → Yields {E = E} {S = S} P (pure a)
  Yields-pure a p = record { at = λ s b h. subst P (cc) p }

  pub Yields-fail : (e : E) → Yields {S = S} P (fail e)
  Yields-fail e = record { at = λ s b h. cc }

  -- the test's outcome may be used in each branch
  pub Yields-if :
      (b : Bool) {m n : Exec E S A}
      → (b ≡ true → Yields P m)
      → (b ≡ false → Yields P n)
      → Yields P (if b then m else n)
  Yields-if true p q = p refl
  Yields-if false p q = q refl

  pub Yields-bind :
      {B : Type 0} (m : Exec E S B) {f : B → Exec E S A}
      → ((b : B) → Yields P (f b))
      → Yields P (m >>= f)
  Yields-bind m {f} q = record {
    at = λ s a h. let (b, _, k) = bind-eq-ok m f s h in (q b).at (m s).1 a k;
  }

-- A chain of tests that ends in a value has passed its first test.
pub passed :
    {E A : Type 0} (b : Bool) (e : E) (x : Result E A) {a : A}
    → (if b then err e else x) ≡ ok a
    → (b ≡ false) × (x ≡ ok a)
passed true e x h = cc
passed false e x h = (refl, h)
