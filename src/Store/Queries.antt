-- ===== src/Store/Queries.antt =====
-- internal/store/store.go: `Results`, and `Load` of a task.
use mathlib.Core.Path.{subst}
use nex_shell.Prelude.{
  ◌≡◌, ◌≢◌, ◌⊎◌, refl, sym, Option-cases, modify, continue, ◌∙◌, ap, true, false, Option, none,
  some, List, [], ◌∷◌, ◌++◌, arith, if◌then◌else◌, Bool-cases, inl, inr, Bytes, bytes_equal,
  bytes_equal→eq, bytes_equal_refl, Result, ok, err, pure, fail, gets, ◌>>=◌, ◌>>◌,
}
use nex_shell.Agent.Types.{Task}
use nex_shell.Store.{
  Fault, Db, Action, Execution, Row, answer, statement, no_rows, has_task, replace, put_in,
  put_task,
}

unfoldable pub of_task : Bytes → List Row → List Execution
of_task task [] = []
of_task task (row ∷ rows) =
    let rest = of_task task rows in
    if bytes_equal row.task_id task then row.payload ∷ rest else rest

-- `Results`
unfoldable pub results : Bytes → Action (List Execution)
results task = do statement; gets (λ db. of_task task db.executions)

unfoldable pub find_task : Bytes → List Task → Option Task
find_task id [] = none
find_task id (t ∷ tasks) =
    let rest = find_task id tasks in if bytes_equal t.id id then some t else rest

unfoldable pub or_missing : {A : Type 0} → Option A → Action A
or_missing none = fail no_rows
or_missing (some a) = pure a

-- `Load` of a task
unfoldable pub load_task : Bytes → Action Task
load_task id = do statement; t ← gets (λ db. find_task id db.tasks); or_missing t

pub find_task-id :
    (id : Bytes) (tasks : List Task) (t : Task) → find_task id tasks ≡ some t → t.id ≡ id
unfolding find_task
find_task-id id [] t h = cc
find_task-id id (old ∷ tasks) t h = elim (Bool-cases (bytes_equal old.id id)) [
  | inl s ↦
      let same : old ≡ t = let k = rw s at h in cc in
      subst (λ x. x.id ≡ id) same (bytes_equal→eq old.id id s)
  | inr d ↦ find_task-id id tasks t (rw d at h)
]

find_task-replace :
    (t : Task) (tasks : List Task)
    → has_task t.id tasks ≡ true
    → find_task t.id (replace t tasks) ≡ some t
unfolding find_task replace has_task
find_task-replace t [] h = cc
find_task-replace t (old ∷ tasks) h = elim (Bool-cases (bytes_equal old.id t.id)) [
  | inl s ↦ rw s (rw (bytes_equal_refl t.id) refl)
  | inr d ↦ rw d (rw d (find_task-replace t tasks (rw d at h)))
]

find_task-append :
    (t : Task) (tasks : List Task)
    → has_task t.id tasks ≡ false
    → find_task t.id (tasks ++ t ∷ []) ≡ some t
unfolding find_task has_task
find_task-append t [] h = rw (bytes_equal_refl t.id) refl
find_task-append t (old ∷ tasks) h =
    let d : bytes_equal old.id t.id ≡ false = ground arith in
    rw d (find_task-append t tasks (rw d at h))

-- what is stored is what is loaded
pub find_task-put_in : (t : Task) (tasks : List Task) → find_task t.id (put_in t tasks) ≡ some t
unfolding put_in
find_task-put_in t tasks = elim (Bool-cases (has_task t.id tasks)) [
  | inl s ↦ rw s (find_task-replace t tasks s)
  | inr n ↦ rw n (find_task-append t tasks n)
]

find_task-replace_other :
    (t : Task) (id : Bytes) (tasks : List Task)
    → bytes_equal t.id id ≡ false
    → find_task id (replace t tasks) ≡ find_task id tasks
unfolding find_task replace
find_task-replace_other t id [] h = refl
find_task-replace_other t id (old ∷ tasks) h = elim (Bool-cases (bytes_equal old.id t.id)) [
  | inl s ↦
      let same = bytes_equal→eq old.id t.id s in
      let o : bytes_equal old.id id ≡ false = ap (λ x. bytes_equal x id) same ∙ h in
      rw s (rw (h, o) (find_task-replace_other t id tasks h))
  | inr d ↦ rw d (elim (Bool-cases (bytes_equal old.id id)) [
    | inl y ↦ rw y refl
    | inr n ↦ rw n (find_task-replace_other t id tasks h)
  ])
]

find_task-append_other :
    (t : Task) (id : Bytes) (tasks : List Task)
    → bytes_equal t.id id ≡ false
    → find_task id (tasks ++ t ∷ []) ≡ find_task id tasks
unfolding find_task
find_task-append_other t id [] h = rw h refl
find_task-append_other t id (old ∷ tasks) h = elim (Bool-cases (bytes_equal old.id id)) [
  | inl y ↦ rw y refl
  | inr n ↦ rw n (find_task-append_other t id tasks h)
]

-- and the other tasks stay as they are
pub find_task-put_in_other :
    (t : Task) (id : Bytes) (tasks : List Task)
    → bytes_equal t.id id ≡ false
    → find_task id (put_in t tasks) ≡ find_task id tasks
unfolding put_in
find_task-put_in_other t id tasks h = elim (Bool-cases (has_task t.id tasks)) [
  | inl s ↦ rw s (find_task-replace_other t id tasks h)
  | inr n ↦ rw n (find_task-append_other t id tasks h)
]

answer-tasks : (list : List (Option Fault)) (db : Db) → (answer list db).1.tasks ≡ db.tasks
unfolding answer
answer-tasks [] db = refl
answer-tasks (none ∷ later) db = refl
answer-tasks (some e ∷ later) db = refl

pub statement-tasks : (db : Db) → (statement db).1.tasks ≡ db.tasks
unfolding statement
statement-tasks db = answer-tasks db.answers db

load_task-found_from :
    (id : Bytes) (x : Result Fault (Unit {0}) × Db) (t : Task)
    → let y = continue x (λ _ d. or_missing (find_task id d.tasks) d) in
      y.0 ≡ ok t → find_task id y.1.tasks ≡ some t
unfolding or_missing find_task
load_task-found_from id (err e, db) t h = cc
load_task-found_from id (ok u, db) t h = elim (Option-cases (find_task id db.tasks)) [
  | inl n ↦ (let k = rw n at h in cc)
  | inr (a, f) ↦
      let g : or_missing (find_task id db.tasks) db ≡ (ok a, db) = rw f refl in
      let k : ◌≡◌ {A = Result Fault Task} (ok a) (ok t) = sym (ap (λ y. y.0) g) ∙ h in
      let same : a ≡ t = cc in ap (λ y. find_task id y.1.tasks) g ∙ f ∙ ap some same
]

pub load_task-found :
    (id : Bytes) (db : Db) (t : Task)
    → (load_task id db).0 ≡ ok t
    → find_task id (load_task id db).1.tasks ≡ some t
unfolding load_task
load_task-found id db t h = load_task-found_from id (statement db) t h

put-tasks :
    (t : Task) (x : Result Fault (Unit {0}) × Db) (db : Db)
    → x.1.tasks ≡ db.tasks
    → let y = continue x (λ _. modify (λ d. record d { tasks = put_in t d.tasks })) in
      ((y.0 ≡ ok tt) × (y.1.tasks ≡ put_in t db.tasks)) ⊎ ((y.0 ≢ ok tt) × (y.1.tasks ≡ db.tasks))
put-tasks t (ok u, d) db e = inl (refl, ap (put_in t) e)
put-tasks t (err f, d) db e = inr (λ h. cc, e)

-- `Put` of a task stores it if it succeeds, and changes no task otherwise.
pub put_task-tasks :
    (t : Task) (db : Db)
    → (((put_task t db).0 ≡ ok tt) × ((put_task t db).1.tasks ≡ put_in t db.tasks))
      ⊎ (((put_task t db).0 ≢ ok tt) × ((put_task t db).1.tasks ≡ db.tasks))
unfolding put_task
put_task-tasks t db = elim (Bool-cases (bytes_equal t.id [])) [
  | inl e ↦ rw e (inr (λ h. cc, refl))
  | inr n ↦ rw n (put-tasks t (statement db) db (statement-tasks db))
]

answer-executions :
    (list : List (Option Fault)) (db : Db) → (answer list db).1.executions ≡ db.executions
unfolding answer
answer-executions [] db = refl
answer-executions (none ∷ later) db = refl
answer-executions (some e ∷ later) db = refl

results_from :
    (task : Bytes) (x : Result Fault (Unit {0}) × Db) (rows : List Row)
    → x.1.executions ≡ rows
    → let y = continue x (λ _. gets (λ db. of_task task db.executions)) in
      (y.1.executions ≡ rows) × ((list : List Execution) → y.0 ≡ ok list → list ≡ of_task task rows)
results_from task (ok u, db) rows e = (e, λ list h. sym (ok-eq h) ∙ ap (of_task task) e)
  where
    ok-eq : {A E : Type 0} {a b : A} → ◌≡◌ {A = Result E A} (ok a) (ok b) → a ≡ b
    ok-eq h = cc
results_from task (err f, db) rows e = (e, λ list h. cc)

-- `Results` changes no row, and gives those of the task.
pub results_lem :
    (task : Bytes) (db : Db)
    → ((results task db).1.executions ≡ db.executions)
      × ((list : List Execution)
          → (results task db).0 ≡ ok list
          → list ≡ of_task task db.executions)
unfolding results statement
results_lem task db =
    results_from task (answer db.answers db) db.executions (answer-executions db.answers db)
