-- ===== src/Agent/Service/Grants.antt =====
-- A run begins under a grant that is good, and `Resume` replaces the grant of a task.
use mathlib.Core.Path.{subst}
use nex_shell.Prelude.{
  ◌<◌, ◌≡◌, refl, ap, false, some, List, [], ◌∷◌, ◌++◌, arith, Bytes, Result, ok, err, Post, Hoare,
}
use nex_shell.Agent.History.{Message}
use nex_shell.Agent.Service.{Input, Service, Trouble, Env, is_running}
use nex_shell.Agent.Service.Begin.{Predicate, Ready, start-Hoare}
use nex_shell.Agent.Service.Frames.{View}
use nex_shell.Agent.Service.Start.{runtime_version, started, new_run, start}
use nex_shell.Agent.Types.{Task}
use nex_shell.Store.{put_in}
use nex_shell.Store.Queries.{find_task}

-- the tasks, the runs and the mark of that state
abbrev Same : Service → Predicate
Same s tasks active closed = (tasks ≡ s.db.tasks) × ((active ≡ s.active) × (closed ≡ s.closed))

-- What has changed from one state to the next when a run has begun.
pub record Begun (env : Env) (id : Bytes) (input : Input) (s s' : Service) : Type 0 where
  pub task : Task
  pub history : List Message
  pub was_open : s.closed ≡ false
  pub was_idle : is_running id s.active ≡ false
  pub was_stored : find_task id s.db.tasks ≡ some task
  pub version : task.runtime_version ≡ runtime_version
  pub in_time : env.now < task.grant.expires_at
  pub tasks : s'.db.tasks ≡ put_in (started task) s.db.tasks
  pub active : s'.active ≡ s.active ++ new_run id task history input ∷ []

module _ (env : Env) (id : Bytes) (input : Input) (s : Service) where
  -- the same in terms of what has changed
  Began : Predicate
  Began tasks active closed =
      (t : Task) × (history : List Message) × ((tasks ≡ put_in (started t) s.db.tasks)
        × ((active ≡ s.active ++ new_run id t history input ∷ [])
            × (Ready env id t s.db.tasks s.active s.closed)))

  start-Began : Hoare (View (Same s)) (start env id input) (λ _. View Began) (View (Same s))
  start-Began = start-Hoare (Same s) Began env id input λ t history tasks active q r.
      unfold Began in
      (
        t,
        history,
        (
          ap (put_in (started t)) q.0,
          (
            ap (λ a. a ++ new_run id t history input ∷ []) q.1.0,
            subst (λ c. Ready env id t s.db.tasks s.active c) q.1.1
                (subst (λ a. Ready env id t s.db.tasks a false) q.1.0
                  (subst (λ k. Ready env id t k active false) q.0 r)),
          ),
        ),
      )

  began-Begun :
      (x : Result Trouble (Unit {0}) × Service)
      → x.0 ≡ ok tt
      → Post (λ _. View Began) (View (Same s)) x
      → Begun env id input s x.1
  unfolding Began
  began-Begun (err e, u) h p = cc
  began-Begun (ok v, u) h (t, history, (tasks, (active, r))) = record {
    task = t;
    history = history;
    was_open = r.0.0.0;
    was_idle = r.0.0.1;
    was_stored = r.0.1.0;
    version = r.0.1.1;
    in_time = ground arith;
    tasks = tasks;
    active = active;
  }

  began-Same :
      (x : Result Trouble (Unit {0}) × Service) (e : Trouble)
      → x.0 ≡ err e
      → Post (λ _. View Began) (View (Same s)) x
      → View (Same s) x.1
  began-Same (err f, u) e h p = p
  began-Same (ok v, u) e h p = cc

-- `start` succeeds only in an open service, for a task that does not run, is stored in the current version and
-- has a grant that is still good. Then the task is stored as running, and one run of it is added.
pub start-Begun :
    (env : Env) (id : Bytes) (input : Input) (s : Service)
    → (start env id input s).0 ≡ ok tt
    → Begun env id input s (start env id input s).1
start-Begun env id input s h =
    began-Begun env id input s (start env id input s) h
      ((start-Began env id input s).at s (refl, (refl, refl)))

-- When `start` returns an error, no task, no run and not the mark of the end has changed.
pub start_error :
    (env : Env) (id : Bytes) (input : Input) (s : Service) (e : Trouble)
    → (start env id input s).0 ≡ err e
    → ((start env id input s).1.db.tasks ≡ s.db.tasks)
      × ((start env id input s).1.active ≡ s.active)
      × ((start env id input s).1.closed ≡ s.closed)
start_error env id input s e h =
    let q =
      began-Same env id input s (start env id input s) e h
        ((start-Began env id input s).at s (refl, (refl, refl))) in
    (q.0, q.1.0, q.1.1)
