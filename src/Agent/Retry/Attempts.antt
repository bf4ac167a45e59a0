-- ===== src/Agent/Retry/Attempts.antt =====
-- How often the model is called, and when a call is repeated.
use mathlib.Core.Path.{subst}
use native.Mathlib.Nat.{add-zero}
use nex_shell.Prelude.{
  ℕ, zero, suc, ◌+◌, ◌≤◌, ◌<◌, ◌≡◌, refl, ap, dec_lt, Bool, true, false, not, ◌||◌, Option, none,
  some, arith, Bool-cases, inl, inr, Result, ok, err, Exec,
}
use nex_shell.Agent.Retry.{
  ModelError, Advice, model_error_action, Failure, cancelled, unfinished, blocked, failed, Line,
  fresh_line, failure_of, look, make, after_error, after_call, is_last, retry_loop,
  retry_model_call,
}

module _ {A : Type 0} (call : ℕ → Result ModelError A) (ctx_err : ℕ → Bool) where
  -- the call of that number fails with an error that may pass
  abbrev pub Passing : ℕ → Type 0
  Passing i = (e : ModelError) × ((call i ≡ err e) × ((model_error_action e).0 ≡ true))

  -- what a result says of the calls, of which there were `n`
  abbrev pub Told : Result Failure A → ℕ → Type 0
  Told (ok a) n = (i : ℕ) × ((n ≡ suc i) × (call i ≡ ok a))
  Told (err cancelled) n = (k : ℕ) × (ctx_err k ≡ true)
  Told (err unfinished) n = ⊥
  Told (err (blocked advice e)) n =
      (i : ℕ) × ((n ≡ suc i) × ((call i ≡ err e) × ((model_error_action e).1 ≡ some advice)))
  Told (err (failed e)) n =
      (i : ℕ) × ((n ≡ suc i) × ((call i ≡ err e) × ((model_error_action e).1 ≡ none)))

  pub record Ends (x : Result Failure A × Line) : Type 0 where
    pub at_most : x.1.calls ≤ 3
    pub repeated : (i : ℕ) → i + 1 < x.1.calls → Passing i
    pub told : Told x.0 x.1.calls

  record Before (left : ℕ) (s : Line) : Type 0 where
    rounds : s.calls + left ≡ 3
    passing : (i : ℕ) → i < s.calls → Passing i

  stopped-Ends :
      (s : Line)
      → s.calls ≤ 3
      → ((i : ℕ) → i + 1 < s.calls → Passing i)
      → ctx_err s.looks ≡ true
      → Ends (err cancelled, record s { looks = s.looks + 1 })
  stopped-Ends s h p e = record { at_most = h; repeated = p; told = (s.looks, e) }

  failure-Told :
      (i : ℕ) (e : ModelError) (message : Option Advice)
      → call i ≡ err e
      → (model_error_action e).1 ≡ message
      → Told (err (failure_of message e)) (suc i)
  unfolding failure_of
  failure-Told i e none h m = (i, (refl, (h, m)))
  failure-Told i e (some advice) h m = (i, (refl, (h, m)))

  module _ (left : ℕ) (rest : Exec Failure Line A)
      (again : is_last left ≡ false → (s : Line) → Before left s → Ends (rest s)) where
    -- after the failed call of number `i`
    after_error-Ends :
        (s : Line) (i : ℕ) (e : ModelError) (retry : Bool) (message : Option Advice)
        → s.calls ≡ suc i
        → s.calls + left ≡ 3
        → ((j : ℕ) → j < i → Passing j)
        → call i ≡ err e
        → model_error_action e ≡ (retry, message)
        → Ends (after_error call ctx_err (is_last left) rest e (retry, message) s)
    unfolding after_error look
    after_error-Ends s i e retry message n r p c a = elim (Bool-cases (not retry || is_last left)) [
      | inl stop ↦ rw stop (record {
        at_most = omega arith;
        repeated = λ j h. p j (omega arith);
        told = rw n (failure-Told i e message c (ap (λ x. x.1) a));
      })
      | inr go ↦ rw go (
          let all : (j : ℕ) → j < s.calls → Passing j = λ j h. elim (dec_lt j i) [
            | yes lt ↦ p j lt
            | no ge ↦
                let same : j ≡ i = omega arith in
                rw same (e, (c, (let q = ap (λ x. x.0) a in ground arith)))
          ] in
          elim (Bool-cases (ctx_err s.looks)) [
            | inl t ↦ rw t (stopped-Ends s (omega arith) (λ j h. all j (omega arith)) t)
            | inr f ↦ rw f (
                again (ground arith) (record s { looks = s.looks + 1 })
                  (record { rounds = r; passing = all }))
          ])
    ]

    after_call-Ends :
        (s : Line) (i : ℕ) (out : Result ModelError A)
        → s.calls ≡ suc i
        → s.calls + left ≡ 3
        → ((j : ℕ) → j < i → Passing j)
        → call i ≡ out
        → Ends (after_call call ctx_err (is_last left) rest out s)
    unfolding after_call look
    after_call-Ends s i (ok a) n r p c = record {
      at_most = omega arith;
      repeated = λ j h. p j (omega arith);
      told = (i, (n, c));
    }
    after_call-Ends s i (err e) n r p c = elim (Bool-cases (ctx_err s.looks)) [
      | inl t ↦ rw t (stopped-Ends s (omega arith) (λ j h. p j (omega arith)) t)
      | inr f ↦ rw f (
          after_error-Ends (record s { looks = s.looks + 1 }) i e (model_error_action e).0
            (model_error_action e).1 n r p c refl)
    ]

  round-Ends :
      (left : ℕ)
      → (is_last left ≡ false → (s : Line) → Before left s → Ends (retry_loop call ctx_err left s))
      → (s : Line) → Before (suc left) s
      → Ends (retry_loop call ctx_err (suc left) s)
  unfolding retry_loop make look
  round-Ends left again s b = elim (Bool-cases (ctx_err s.looks)) [
    | inl t ↦ rw t (stopped-Ends s (omega (arith, b.rounds)) (λ j h. b.passing j (omega arith)) t)
    | inr f ↦ rw f (
        after_call-Ends left (retry_loop call ctx_err left) again
          (record { calls = s.calls + 1; looks = s.looks + 1 }) s.calls (call s.calls) (omega arith)
          (omega (arith, b.rounds)) b.passing refl)
  ]

  loop-Ends :
      (left : ℕ) (s : Line) → Before (suc left) s → Ends (retry_loop call ctx_err (suc left) s)
  unfolding is_last
  loop-Ends zero s b = round-Ends zero (λ h. cc) s b
  loop-Ends (suc k) s b = round-Ends (suc k) (λ _. loop-Ends k) s b

  -- The model is called three times at most, and again only after an error that may pass. A reply is the
  -- one of the last call, an error is that of the last call with the message that goes with it or says
  -- that the context was cancelled, and the loop never runs out of rounds.
  pub retry_model_call-Ends : Ends (retry_model_call call ctx_err fresh_line)
  unfolding retry_model_call
  retry_model_call-Ends =
      loop-Ends 2 fresh_line (record { rounds = refl; passing = λ i h. absurd (omega arith) })

  -- a loop that reaches a reply behind `k` errors that may pass
  loop_reply :
      (left k : ℕ) (s : Line) (a : A)
      → k ≤ left
      → ((n : ℕ) → ctx_err n ≡ false)
      → ((i : ℕ) → i < k → Passing (s.calls + i))
      → call (s.calls + k) ≡ ok a
      → (retry_loop call ctx_err (suc left) s).0 ≡ ok a
  unfolding retry_loop make look after_call after_error is_last
  loop_reply left zero s a h calm p c =
      let here : call s.calls ≡ ok a = rw (← add-zero s.calls) c in rw (calm s.looks, here) refl
  loop_reply zero (suc k) s a h calm p c = absurd (omega arith)
  loop_reply (suc left) (suc k) s a h calm p c =
      let (e, (f, retry)) = p 0 (omega arith) in
      let here : call s.calls ≡ err e = rw (← add-zero s.calls) f in
      let later : (retry_loop call ctx_err (suc left)
            (record { calls = s.calls + 1; looks = s.looks + 1 + 1 + 1 })).0
          ≡ ok a =
        loop_reply left k (record { calls = s.calls + 1; looks = s.looks + 1 + 1 + 1 }) a
          (omega arith) calm (λ i lt. subst Passing (omega arith) (p (suc i) (omega arith)))
          (subst (λ n. call n ≡ ok a) (omega arith) c) in
      rw (calm s.looks, here, calm (s.looks + 1), retry, calm (s.looks + 1 + 1)) later

  -- While the context is not cancelled, a reply that comes at the first, second or third call, behind
  -- errors that may pass, is returned.
  pub retry_model_call_replies :
      (k : ℕ) (a : A)
      → k < 3
      → ((n : ℕ) → ctx_err n ≡ false)
      → ((i : ℕ) → i < k → Passing i)
      → call k ≡ ok a
      → (retry_model_call call ctx_err fresh_line).0 ≡ ok a
  unfolding retry_model_call
  retry_model_call_replies k a h calm p c =
      loop_reply 2 k fresh_line a (omega arith) calm (λ i lt. subst Passing (omega arith) (p i lt))
        (subst (λ n. call n ≡ ok a) (omega arith) c)
