-- ===== src/Prelude/Triple.antt =====
-- Pre- and postconditions of actions. `F` is what holds when the action returns an error.
use mathlib.Core.Path.{◌≡◌, refl}
use mathlib.Core.Bool.{Bool, true, false}
use nex_shell.Prelude.Monad.{Result, ok, err, Exec, pure, fail, gets, continue, Yields, ◌>>=◌}
use nex_shell.Prelude.Tests.{if◌then◌else◌}

module _ {E S A : Type 0} where
  abbrev pub Post : (A → S → Type 0) → (S → Type 0) → Result E A × S → Type 0
  Post Q F (ok a, s) = Q a s
  Post Q F (err e, s) = F s

  pub record Hoare (P : S → Type 0) (m : Exec E S A) (Q : A → S → Type 0) (F : S → Type 0)
      : Type 0 where
    pub at : (s : S) → P s → Post Q F (m s)

module _ {E S A : Type 0} {P : S → Type 0} {Q : A → S → Type 0} {F : S → Type 0} where
  pub Hoare-pure : (a : A) → ((s : S) → P s → Q a s) → Hoare {E = E} P (pure a) Q F
  Hoare-pure a h = record { at = h }

  pub Hoare-fail : (e : E) → ((s : S) → P s → F s) → Hoare P (fail e) Q F
  Hoare-fail e h = record { at = h }

  pub Hoare-if :
      (b : Bool) {m n : Exec E S A}
      → (b ≡ true → Hoare P m Q F)
      → (b ≡ false → Hoare P n Q F)
      → Hoare P (if b then m else n) Q F
  Hoare-if true h k = h refl
  Hoare-if false h k = k refl

module _ {E S A B : Type 0} {F : S → Type 0} where
  continue-Post :
      {Q : A → S → Type 0} {R : B → S → Type 0} (r : Result E A × S) (f : A → Exec E S B)
      → Post Q F r
      → ((a : A) → Hoare (Q a) (f a) R F)
      → Post R F (continue r f)
  continue-Post (ok a, s) f h k = (k a).at s h
  continue-Post (err e, s) f h k = h

  pub Hoare-bind :
      {P : S → Type 0} {Q : A → S → Type 0} {R : B → S → Type 0} {m : Exec E S A}
      {f : A → Exec E S B}
      → Hoare P m Q F
      → ((a : A) → Hoare (Q a) (f a) R F)
      → Hoare P (m >>= f) R F
  Hoare-bind {m = m} {f = f} h k = record { at = λ s p. continue-Post (m s) f (h.at s p) k }

module _ {E S A B : Type 0} {P : S → Type 0} {R : B → S → Type 0} {F : S → Type 0} where
  -- What was read of the state is known of it in the rest.
  pub Hoare-gets :
      (f : S → A) {k : A → Exec E S B}
      → ((a : A) → Hoare (λ s. P s × (f s ≡ a)) (k a) R F)
      → Hoare P (gets f >>= k) R F
  Hoare-gets f h = record { at = λ s p. (h (f s)).at s (p, refl) }

module _ {E S A : Type 0} {Q : A → S → Type 0} {F : S → Type 0} where
  pub Hoare-before :
      {P P' : S → Type 0} {m : Exec E S A} → ((s : S) → P s → P' s) → Hoare P' m Q F → Hoare P m Q F
  Hoare-before i h = record { at = λ s p. h.at s (i s p) }

  after-Post :
      {Q' : A → S → Type 0} {F' : S → Type 0} (x : Result E A × S)
      → ((a : A) (s : S) → Q' a s → Q a s)
      → ((s : S) → F' s → F s)
      → Post Q' F' x
      → Post Q F x
  after-Post (ok a, s) i j h = i a s h
  after-Post (err e, s) i j h = j s h

  pub Hoare-after :
      {P : S → Type 0} {Q' : A → S → Type 0} {F' : S → Type 0} {m : Exec E S A}
      → ((a : A) (s : S) → Q' a s → Q a s)
      → ((s : S) → F' s → F s)
      → Hoare P m Q' F'
      → Hoare P m Q F
  Hoare-after {m = m} i j h = record { at = λ s p. after-Post (m s) i j (h.at s p) }

module _ {E S A : Type 0} where
  value-Post :
      (I F : S → Type 0) {V : A → Type 0} (x : Result E A × S)
      → ((a : A) → x.0 ≡ ok a → V a)
      → Post (λ _. I) F x
      → Post (λ a s. I s × V a) F x
  value-Post I F (ok a, s) v h = (h, v a refl)
  value-Post I F (err e, s) v h = h

-- What is known of every value that `m` returns may be added to a postcondition.
pub Hoare-Yields :
    {E S A : Type 0} {P I F : S → Type 0} {V : A → Type 0} {m : Exec E S A}
    → Yields V m
    → Hoare P m (λ _. I) F
    → Hoare P m (λ a s. I s × V a) F
Hoare-Yields {I = I} {F = F} {m = m} y h = record {
  at = λ s p. value-Post I F (m s) (y.at s) (h.at s p);
}
