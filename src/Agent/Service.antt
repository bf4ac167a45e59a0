-- ===== src/Agent/Service.antt =====
-- internal/agent/service.go: the state of the service, and what its calls are made of.
--
-- A call of the service runs from its start to its end before the next one begins, and a run ends between two
-- calls. The lock of the source guarantees this for `start` and for the end of a run. `Submit`, `Resume` and
-- `Cancel` load and store the task outside the lock, so that of calls that overlap this is a simplification.
pub mod Start
pub mod Create
pub mod Control
pub mod Turn
pub mod Finish
pub mod Frames
pub mod Begin
pub mod Keeps
pub mod Stopping
pub mod Invariants
pub mod Quiet
pub mod Steps
pub mod Active
pub mod Closing
pub mod Grants
pub mod Renewal
pub mod Done
pub mod Fixed
pub mod Decisions
mod Tests
use nex_shell.Prelude.{
  ℕ, ◌+◌, ◌*◌, Bool, true, false, not, ◌&&◌, ◌||◌, Option, none, some, List, [], ◌∷◌, ◌++◌,
  if◌then◌else◌, Bytes, codes, bytes_equal, Result, ok, err, Exec, pure, fail, gets, modify, ◌>>=◌,
  ◌>>◌,
}
use nex_shell.Agent.Gate.{Attachment}
use nex_shell.Agent.History.{Message}
use nex_shell.Agent.References.{Files}
use nex_shell.Agent.Types.{Host, Task, Approval, Encoders, host_digest}
use nex_shell.Agent.Verify.{Verification}
use nex_shell.Store.{Fault, no_rows, Db, Action, statement}

pub record Input : Type 0 where
  pub text : Bytes
  pub approval_id : Bytes

-- `activeRun`, with the variables of `start` that its goroutine keeps: the task, the history that it begins
-- with, what was pushed to its loop, and whether its context is cancelled
pub record Run : Type 0 where
  pub id : Bytes
  pub task : Task
  pub history : List Message
  pub inbox : List Input
  pub cancelled : Bool

pub record Event : Type 0 where
  pub task_id : Bytes
  pub kind : Bytes
  pub text : Bytes

-- The documents of the other kinds than tasks stand by their identifiers: approvals by digest, attachments
-- by task and digest of the path, verifications by task and host, histories by task.
pub record Service : Type 0 where
  pub db : Db
  pub approvals : Bytes → Option Approval
  pub attachments : Bytes → Bytes → Option Attachment
  pub verifications : Bytes → Bytes → Option Verification
  pub histories : Bytes → Option (List Message)
  pub events : List Event
  pub active : List Run
  pub closed : Bool

pub data Trouble : Type 0 where
  store_failed : Fault → Trouble
  exiting still_running stopping wrong_version needs_upgrade grant_expired no_model no_tools
        bad_goal bad_root unknown_result not_this_task revoked bad_file :
      Trouble

-- What a call finds outside the service: the clock, the identifiers that it draws, the stored hosts and model
-- profiles, whether the model and its tools can be set up and whether the loop of a run takes an input, the
-- file system, and `Digest` of a path.
pub record Env : Type 0 where
  pub encoders : Encoders
  pub now : ℕ
  pub fresh_id : Bytes
  pub fresh_grant : Bytes
  pub hosts : Bytes → Result Fault Host
  pub profiles : Bytes → Bool
  pub model_ready : Bool
  pub tools_ready : Bool
  pub accepts : Bool
  pub files : Files
  pub is_dir : Bytes → Bool
  pub path_digest : Bytes → Bytes

abbrev pub Call : Type 0 → Type 0
Call A = Exec Trouble Service A

abbrev pub with_db : {A : Type 0} → Result Fault A × Db → Service → Result Trouble A × Service
with_db (ok a, db) s = (ok a, record s { db = db })
with_db (err e, db) s = (err (store_failed e), record s { db = db })

-- an action of the store
abbrev pub stored : {A : Type 0} → Action A → Call A
stored m s = with_db (m s.db) s

abbrev pub guard : Bool → Trouble → Call (Unit {0})
guard b e = if b then pure tt else fail e

-- the result of a call whose error is not looked at
abbrev pub dropped : {A : Type 0} → Result Trouble A × Service → Result Trouble (Option A) × Service
dropped (ok a, s) = (ok (some a), s)
dropped (err e, s) = (ok none, s)

abbrev pub attempt : {A : Type 0} → Call A → Call (Option A)
attempt m s = dropped (m s)

abbrev pub or_error : {A : Type 0} → Trouble → Option A → Call A
or_error e none = fail e
or_error e (some a) = pure a

abbrev pub or_no_rows : {A : Type 0} → Option A → Call A
or_no_rows = or_error (store_failed no_rows)

-- `event`
unfoldable pub event : Bytes → Bytes → Bytes → Call (Unit {0})
event id kind text = do
  stored statement
  modify (λ s. record s {
    events = s.events ++ record { task_id = id; kind = kind; text = text } ∷ [];
  })

unfoldable pub find_run : Bytes → List Run → Option Run
find_run id [] = none
find_run id (r ∷ runs) = let rest = find_run id runs in if bytes_equal r.id id then some r else rest

unfoldable pub is_running : Bytes → List Run → Bool
is_running id [] = false
is_running id (r ∷ runs) = bytes_equal r.id id || is_running id runs

unfoldable pub on_run : Bytes → (Run → Run) → List Run → List Run
on_run id f [] = []
on_run id f (r ∷ runs) =
    let rest = on_run id f runs in if bytes_equal r.id id then f r ∷ rest else r ∷ rest

unfoldable pub without_run : Bytes → List Run → List Run
without_run id [] = []
without_run id (r ∷ runs) =
    let rest = without_run id runs in if bytes_equal r.id id then rest else r ∷ rest

abbrev pub of_result : {A : Type 0} → Result Fault A → Call A
of_result (ok a) = pure a
of_result (err e) = fail (store_failed e)

-- `Host` of the store
unfoldable pub load_host : Env → Bytes → Call Host
load_host env id = do stored statement; of_result (env.hosts id)

unfoldable pub set_value : Bytes → Bytes → List (Bytes × Bytes) → List (Bytes × Bytes)
set_value key v [] = (key, v) ∷ []
set_value key v ((k, w) ∷ entries) =
    let rest = set_value key v entries in
    if bytes_equal k key then (key, v) ∷ entries else (k, w) ∷ rest

-- the loop that takes the identities of the hosts
unfoldable pub identify : Env → List Bytes → List (Bytes × Bytes) → Call (List (Bytes × Bytes))
identify env [] identities = pure identities
identify env (id ∷ hosts) identities = do
  h ← load_host env id
  identify env hosts (set_value id (host_digest env.encoders h) identities)

abbrev pub eight_hours : ℕ
eight_hours = 8 * 3600 * 1000000000
