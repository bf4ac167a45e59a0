-- ===== src/Agent/Retry.antt =====
-- internal/agent/model_retry.go: a call of the model, repeated after an error that may pass.
--
-- `call n` is what the call of number `n` gives, counted from zero, and `ctx_err n` says whether the context
-- is cancelled at the look of number `n`. The wait between two calls is a look too: its `select` takes the
-- end of the context or the timer.
pub mod Attempts
use nex_shell.Prelude.{
  ℕ, zero, suc, ◌+◌, Bool, true, false, not, ◌||◌, Option, none, some, List, [], ◌∷◌, ◌==◌,
  if◌then◌else◌, Bytes, Result, ok, err, Exec, pure, fail, ◌>>=◌,
}

-- An error of the model's client: the status of the API error in its chain, and whether a network error
-- there is a timeout.
pub record ModelError : Type 0 where
  pub status : Option ℕ
  pub timed_out : Bool
  pub text : Bytes

-- the messages for the user
pub data Advice : Type 0 where
  check_key check_request try_later check_network : Advice

abbrev any_of : ℕ → List ℕ → Bool
any_of code [] = false
any_of code (c ∷ list) = code == c || any_of code list

on_network : Bool → Bool × Option Advice
on_network true = (true, some check_network)
on_network false = (false, none)

on_status : ℕ → Bool → Bool × Option Advice
unfolding on_network
on_status code timed_out =
    if any_of code (401 ∷ 403 ∷ [])
    then (false, some check_key)
    else if any_of code (400 ∷ 404 ∷ 422 ∷ [])
    then (false, some check_request)
    else if any_of code (429 ∷ 500 ∷ 502 ∷ 503 ∷ 504 ∷ [])
    then (true, some try_later)
    else on_network timed_out

-- `modelErrorAction`: whether to try again, and the message
action_of : Option ℕ → Bool → Bool × Option Advice
unfolding on_status
action_of none timed_out = on_network timed_out
action_of (some code) timed_out = on_status code timed_out

unfoldable pub model_error_action : ModelError → Bool × Option Advice
unfolding action_of
model_error_action e = action_of e.status e.timed_out

pub data Failure : Type 0 where
  cancelled unfinished : Failure
  blocked : Advice → ModelError → Failure
  failed : ModelError → Failure

-- how many calls have been made, and how often the context has been looked at
pub record Line : Type 0 where
  pub calls : ℕ
  pub looks : ℕ

abbrev pub fresh_line : Line
fresh_line = record { calls = 0; looks = 0 }

unfoldable pub failure_of : Option Advice → ModelError → Failure
failure_of none e = failed e
failure_of (some advice) e = blocked advice e

is_last : ℕ → Bool
is_last zero = true
is_last (suc left) = false

module _ {A : Type 0} (call : ℕ → Result ModelError A) (ctx_err : ℕ → Bool) where
  look : Exec Failure Line Bool
  look s = (ok (ctx_err s.looks), record s { looks = s.looks + 1 })

  make : Exec Failure Line (Result ModelError A)
  make s = (ok (call s.calls), record s { calls = s.calls + 1 })

  -- After a failed call: `rest` is what remains of the loop, and `last` says that this was the last round.
  after_error : Bool → Exec Failure Line A → ModelError → Bool × Option Advice → Exec Failure Line A
  after_error last rest e (retry, message) =
      if not retry || last
      then fail (failure_of message e)
      else (do stopped ← look; if stopped then fail cancelled else rest)

  after_call : Bool → Exec Failure Line A → Result ModelError A → Exec Failure Line A
  after_call last rest (ok a) = pure a
  after_call last rest (err e) = do
    stopped ← look
    if stopped then fail cancelled else after_error last rest e (model_error_action e)

  retry_loop : ℕ → Exec Failure Line A
  retry_loop zero = fail unfinished
  retry_loop (suc left) =
      let rest = retry_loop left in
      do
        stopped ← look
        if stopped then fail cancelled else (do out ← make; after_call (is_last left) rest out)

  -- `retryModelCall`
  unfoldable pub retry_model_call : Exec Failure Line A
  unfolding retry_loop after_call after_error look make is_last
  retry_model_call = retry_loop 3
