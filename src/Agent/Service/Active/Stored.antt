-- ===== src/Agent/Service/Active/Stored.antt =====
-- The tasks that run stay stored as running, in whichever order the steps of the service follow each other.
use mathlib.Core.Path.{subst}
use nex_shell.Prelude.{
  ◌≡◌, refl, sym, ◌∙◌, ap, false, some, List, [], ◌∷◌, map, arith, Bool-cases, inl, inr, Bytes, All,
  All-append, bytes_equal, bytes_equal→eq, bytes_equal_comm,
}
use nex_shell.Agent.Service.{Run, Service, is_running, on_run, without_run}
use nex_shell.Agent.Service.Active.{
  Distinct, IsStored, IsConsistent, SameIds, Distinct-on_run, Distinct-map, Distinct-without,
  Distinct-append,
}
use nex_shell.Agent.Service.Control.{cancelled_run}
use nex_shell.Agent.Service.Keeps.{Invariant}
use nex_shell.Agent.Service.Start.{runtime_version}
use nex_shell.Agent.Service.Steps.{Steps, Steps-View}
use nex_shell.Agent.Types.{Task}
use nex_shell.Store.{put_in}
use nex_shell.Store.Queries.{find_task, find_task-put_in, find_task-put_in_other}

IsStored-other :
    (t : Task) (tasks : List Task) (r : Run)
    → bytes_equal t.id r.id ≡ false
    → IsStored tasks r
    → IsStored (put_in t tasks) r
IsStored-other t tasks r d h = record {
  task = h.task;
  found = find_task-put_in_other t r.id tasks d ∙ h.found;
  running = h.running;
  version = h.version;
}

All-put_in :
    (t : Task) (tasks : List Task) (active : List Run)
    → is_running t.id active ≡ false
    → All (IsStored tasks) active
    → All (IsStored (put_in t tasks)) active
unfolding is_running
All-put_in t tasks [] n h = tt
All-put_in t tasks (r ∷ active) n h =
    let other : bytes_equal t.id r.id ≡ false = bytes_equal_comm t.id r.id ∙ ground arith in
    (IsStored-other t tasks r other h.0, All-put_in t tasks active (ground arith) h.1)

IsStored-renewed :
    (t u : Task) (tasks : List Task) (r : Run)
    → find_task u.id tasks ≡ some t
    → u.runtime_version ≡ runtime_version
    → (t.runtime_version ≡ runtime_version → u.status ≡ t.status)
    → IsStored tasks r
    → IsStored (put_in u tasks) r
IsStored-renewed t u tasks r f v s h = elim (Bool-cases (bytes_equal u.id r.id)) [
  | inl y ↦
      let same = bytes_equal→eq u.id r.id y in
      let found : find_task r.id tasks ≡ some t = rw (← same) f in
      let mine : h.task ≡ t = let k = sym h.found ∙ found in cc in
      record {
        task = u;
        found = rw (← same) (find_task-put_in u tasks);
        running =
            s (ap (λ x. x.runtime_version) (sym mine) ∙ h.version)
            ∙ ap (λ x. x.status) (sym mine)
            ∙ h.running;
        version = v;
      }
  | inr n ↦ IsStored-other u tasks r n h
]

All-renewed :
    (t u : Task) (tasks : List Task) (active : List Run)
    → find_task u.id tasks ≡ some t
    → u.runtime_version ≡ runtime_version
    → (t.runtime_version ≡ runtime_version → u.status ≡ t.status)
    → All (IsStored tasks) active
    → All (IsStored (put_in u tasks)) active
All-renewed t u tasks [] f v s h = tt
All-renewed t u tasks (r ∷ active) f v s h =
    (IsStored-renewed t u tasks r f v s h.0, All-renewed t u tasks active f v s h.1)

-- only the identifier of the run counts
IsStored-id : (tasks : List Task) (r q : Run) → q.id ≡ r.id → IsStored tasks r → IsStored tasks q
IsStored-id tasks r q e h = record {
  task = h.task;
  found = ap (λ k. find_task k tasks) e ∙ h.found;
  running = h.running;
  version = h.version;
}

All-on_run :
    (id : Bytes) (f : Run → Run) (tasks : List Task) (active : List Run)
    → SameIds f
    → All (IsStored tasks) active
    → All (IsStored tasks) (on_run id f active)
unfolding on_run
All-on_run id f tasks [] e h = tt
All-on_run id f tasks (r ∷ active) e h =
    let rest = All-on_run id f tasks active e h.1 in
    elim (Bool-cases (bytes_equal r.id id)) [
      | inl y ↦ rw y (IsStored-id tasks r (f r) (e r) h.0, rest)
      | inr n ↦ rw n (h.0, rest)
    ]

All-map :
    (f : Run → Run) (tasks : List Task) (active : List Run)
    → SameIds f
    → All (IsStored tasks) active
    → All (IsStored tasks) (map f active)
All-map f tasks [] e h = tt
All-map f tasks (r ∷ active) e h =
    (IsStored-id tasks r (f r) (e r) h.0, All-map f tasks active e h.1)

All-without :
    (id : Bytes) (tasks : List Task) (active : List Run)
    → All (IsStored tasks) active
    → All (IsStored tasks) (without_run id active)
unfolding without_run
All-without id tasks [] h = tt
All-without id tasks (r ∷ active) h = elim (Bool-cases (bytes_equal r.id id)) [
  | inl y ↦ rw y (All-without id tasks active h.1)
  | inr n ↦ rw n (h.0, All-without id tasks active h.1)
]

IsConsistent-Invariant : Invariant IsConsistent
IsConsistent-Invariant = record {
  puts = λ t tasks active closed q n. (q.0, All-put_in t tasks active n q.1);
  renews = λ t u tasks active closed q f v s. (q.0, All-renewed t u tasks active f v s q.1);
  adds = λ r tasks active q n f s v. (
    Distinct-append active r n q.0,
    All-append (IsStored tasks) active (r ∷ []) q.1
        (record { task = r.task; found = f; running = s; version = v }, tt),
  );
  changes = λ id f tasks active closed e q.
      (Distinct-on_run id f active e q.0, All-on_run id f tasks active e q.1);
  stops = λ tasks active closed q. (
    Distinct-map cancelled_run active (λ r. refl) q.0,
    All-map cancelled_run tasks active (λ r. refl) q.1,
  );
  removes =
      λ id tasks active closed q. (Distinct-without id active q.0, All-without id tasks active q.1);
}

-- From a service in which nothing runs, as long as each call, and each step of a run, ends before the next one
-- begins, in whichever order they come and whichever statements of the store fail, and as long as a new task has an
-- identifier that no run has: no task has two runs, and a task that has one is stored as running, in the current
-- version of the runtime.
pub runs_consistent :
    (s s' : Service)
    → s.active ≡ []
    → Steps s s'
    → Distinct s'.active × All (IsStored s'.db.tasks) s'.active
runs_consistent s s' e steps =
    Steps-View IsConsistent IsConsistent-Invariant s s' steps
      (subst (λ a. IsConsistent s.db.tasks a s.closed) (sym e) (tt, tt))
