-- ===== src/Agent/Service/Keeps.antt =====
-- One rule for each way in which a call changes the tasks or the runs, and the calls built of them.
use mathlib.Core.Path.{subst}
use nex_shell.Prelude.{
  ◌≡◌, refl, Bool, true, false, some, List, [], ◌∷◌, ◌++◌, map, Bytes, codes, Hoare,
}
use nex_shell.Agent.Service.{Input, Run, Env, Call, is_running, on_run, without_run}
use nex_shell.Agent.Service.Control.{cancelled_run}
use nex_shell.Agent.Service.Frames.{View}
use nex_shell.Agent.Service.Start.{runtime_version, started, new_run, start}
use nex_shell.Agent.Types.{Task}
use nex_shell.Store.{put_in}
use nex_shell.Store.Queries.{find_task, find_task-id, find_task-put_in}
use nex_shell.Agent.Service.Begin.{Predicate, start-Hoare}

-- A predicate that every change of the service keeps.
pub record Invariant (Q : Predicate) : Type 0 where
  -- a task that does not run is stored
  pub puts :
      (t : Task) (tasks : List Task) (active : List Run) (closed : Bool)
      → Q tasks active closed
      → is_running t.id active ≡ false
      → Q (put_in t tasks) active closed
  -- any task is stored with its status, or one of an older version with a new one
  pub renews :
      (t u : Task) (tasks : List Task) (active : List Run) (closed : Bool)
      → Q tasks active closed
      → find_task u.id tasks ≡ some t
      → u.runtime_version ≡ runtime_version
      → (t.runtime_version ≡ runtime_version → u.status ≡ t.status)
      → Q (put_in u tasks) active closed
  -- a run is added for a task that is stored as running
  pub adds :
      (r : Run) (tasks : List Task) (active : List Run)
      → Q tasks active false
      → is_running r.id active ≡ false
      → find_task r.id tasks ≡ some r.task
      → r.task.status ≡ codes "running"
      → r.task.runtime_version ≡ runtime_version
      → Q tasks (active ++ r ∷ []) false
  pub changes :
      (id : Bytes) (f : Run → Run) (tasks : List Task) (active : List Run) (closed : Bool)
      → ((r : Run) → (f r).id ≡ r.id)
      → Q tasks active closed
      → Q tasks (on_run id f active) closed
  pub stops :
      (tasks : List Task) (active : List Run) (closed : Bool)
      → Q tasks active closed
      → Q tasks (map cancelled_run active) true
  pub removes :
      (id : Bytes) (tasks : List Task) (active : List Run) (closed : Bool)
      → Q tasks active closed
      → Q tasks (without_run id active) closed

-- the call keeps the predicate, also if it returns an error
abbrev pub Keeps : {A : Type 0} → Predicate → Call A → Type 0
Keeps Q m = Hoare (View Q) m (λ _. View Q) (View Q)

pub start-Keeps :
    (Q : Predicate) (inv : Invariant Q) (env : Env) (id : Bytes) (input : Input)
    → Keeps Q (start env id input)
start-Keeps Q inv env id input = start-Hoare Q Q env id input λ t history tasks active q r.
    let same : (started t).id ≡ id = find_task-id id tasks t r.0.1.0 in
    let stored_task : find_task id (put_in (started t) tasks) ≡ some (started t) =
      subst (λ k. find_task k (put_in (started t) tasks) ≡ some (started t)) same
        (find_task-put_in (started t) tasks) in
    inv.adds (new_run id t history input) (put_in (started t) tasks) active
      (inv.puts (started t) tasks active false q (rw same r.0.0.1)) r.0.0.1 stored_task refl r.0.1.1
