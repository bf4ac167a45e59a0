-- ===== src/Agent/Service/Finish.antt =====
-- internal/agent/service.go: the end of a run, and the status that it leaves.
use nex_shell.Prelude.{
  Bool, false, not, Option, none, some, if◌then◌else◌, Bytes, codes, pure, gets, modify, ◌>>=◌,
  ◌>>◌,
}
use nex_shell.Agent.Policy.{is}
use nex_shell.Agent.Service.{Call, stored, attempt, event, without_run}
use nex_shell.Agent.Service.Turn.{RunError, blocked, failed, trouble, EventState}
use nex_shell.Agent.Types.{Task}
use nex_shell.Agent.Verify.{Verification, has_operations, all_verified}
use nex_shell.Store.{put_task}
use nex_shell.Store.Queries.{results}

-- `errors.As` with a `blockedError`
unfoldable pub blocked_text : Option RunError → Option Bytes
blocked_text (some (blocked text)) = some text
blocked_text other = none

unfoldable pub first_text : Option Bytes → Option Bytes → Option Bytes
first_text (some text) other = some text
first_text none other = other

-- an error as a text; those of the service have one in Chinese each
unfoldable pub error_text : RunError → Bytes
error_text (blocked text) = text
error_text (failed text) = text
error_text (trouble e) = codes "trouble"

abbrev pub ended : Task → Bytes → Task
ended t status = record t { status = status }

abbrev pub ended_with : Task → Bytes → Bytes → Task
ended_with t status text = record t { status = status; summary = text }

-- The verification of a host, if it can be read: `readable` says so.
unfoldable pub readable_verification :
    (Bytes → Bool) → (Bytes → Option Verification) → Bytes → Option Verification
readable_verification readable verifications host =
    if readable host then verifications host else none

-- `hasOperations`, which is asked for a conversation only
unfoldable pub is_idle_talk : Bytes → Task → Call Bool
is_idle_talk id t =
    if is "conversation" t.mode
    then (do list ← attempt (stored (results id)); pure (not (has_operations list)))
    else pure false

-- `allVerified`
unfoldable pub verified : (Bytes → Bool) → Bytes → Call Bool
verified readable id = do
  list ← attempt (stored (results id))
  verifications ← gets (λ s. s.verifications id)
  pure (all_verified list (readable_verification readable verifications))

-- the last three cases: the run has come to its end without an error
unfoldable pub settle_quiet : (Bytes → Bool) → Bytes → Task → Call Task
settle_quiet readable id t = do
  talk ← is_idle_talk id t
  if talk then pure (ended t (codes "ready")) else (do
    done ← verified readable id
    if done
        then pure (ended t (codes "completed"))
        else pure (ended t (codes "needs_verification")))

unfoldable pub settle_exit : (Bytes → Bool) → Bytes → Task → Option RunError → Call Task
unfolding settle_quiet
settle_exit readable id t (some e) = pure (ended_with t (codes "interrupted") (error_text e))
settle_exit readable id t none = settle_quiet readable id t

unfoldable pub settle_error :
    (Bytes → Bool) → Bytes → Task → Option RunError → Option RunError → Call Task
unfolding settle_exit
settle_error readable id t (some e) exit = pure (ended_with t (codes "failed") (error_text e))
settle_error readable id t none exit = settle_exit readable id t exit

unfoldable pub settle_blocked :
    (Bytes → Bool) → Bytes → Task → Option Bytes → Option RunError → Option RunError → Call Task
unfolding settle_error
settle_blocked readable id t (some text) error exit = pure (ended_with t (codes "blocked") text)
settle_blocked readable id t none error exit = settle_error readable id t error exit

-- The status and the summary of the task after the run: `ctx_err` says that its context was cancelled, and
-- `exit` is the reason for which the loop ended, if there was one.
unfoldable pub settle :
    (Bytes → Bool) → Bytes → Task → EventState → Bool → Option RunError → Call Task
unfolding settle_blocked
settle readable id t state ctx_err exit =
    if state.pending
    then pure (ended t (codes "awaiting_approval"))
    else if ctx_err
    then pure (ended t (codes "interrupted"))
    else settle_blocked readable id t (first_text (blocked_text state.error) (blocked_text exit))
        state.error exit

-- the goroutine of a run, once its loop has ended
unfoldable pub end_run :
    (Bytes → Bool) → Bytes → Task → EventState → Bool → Option RunError → Call (Unit {0})
end_run readable id t state ctx_err exit = do
  out ← settle readable id (record t { summary = state.summary }) state ctx_err exit
  attempt (stored (put_task out))
  attempt (event id (codes "task_state") out.status)
  modify (λ s. record s { active = without_run id s.active })
