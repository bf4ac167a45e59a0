-- ===== src/Store/Recovery.antt =====
-- What a restart leaves: no operation that seems to run, and no task that may go on by itself.
use mathlib.Core.Path.{subst}
use nex_shell.Prelude.{
  ◌≡◌, ◌⊎◌, refl, sym, ◌∙◌, Bool, true, false, not, ◌&&◌, ◌||◌, Option, none, some, List, [], ◌∷◌,
  ◌++◌, arith, if◌then◌else◌, Bytes, codes, All, bytes_equal, bytes_equal_refl, bytes_equal_comm,
  Bool-cases, inl, inr, Result, ok, err, Post, Hoare, Hoare-pure, Hoare-fail, Hoare-if, Hoare-bind,
  Hoare-gets, Hoare-before,
}
use nex_shell.Agent.Types.{Task}
use nex_shell.Store.{
  Fault, Execution, Row, Db, answer, statement, update, finish, is_running, pending, unknown,
  finish_all, active, interrupted, has_task, replace, put_in, put_task, put_all, recover, empty_id,
}
use nex_shell.Store.Claims.{Sound}

named : Bytes → List Execution → Bool
named id [] = false
named id (x ∷ list) = bytes_equal x.id id || named id list

-- The rows that seem to run are among those still to be finished.
abbrev Left : List Execution → List Row → Type 0
Left list rows = All (λ row. (is_running row.payload && not (named row.id list)) ≡ false) rows

-- a larger list of executions to finish
Left-more :
    (x : Execution) (list : List Execution) (rows : List Row)
    → Left list rows
    → Left (x ∷ list) rows
unfolding named
Left-more x list [] h = tt
Left-more x list (row ∷ rows) h = (let l = h.0 in ground arith, Left-more x list rows h.1)

Left-pending : (rows : List Row) → Sound rows → Left (pending rows) rows
unfolding pending named
Left-pending [] h = tt
Left-pending (row ∷ rows) h = elim (Bool-cases (is_running row.payload)) [
  | inl r ↦
      let mine : bytes_equal row.payload.id row.id ≡ true = rw h.0 (bytes_equal_refl row.id) in
      let e : pending (row ∷ rows) ≡ row.payload ∷ pending rows = rw r refl in
      subst (λ list. Left list (row ∷ rows)) (sym e)
        (rw (r, mine) refl, Left-more row.payload (pending rows) rows (Left-pending rows h.1))
  | inr n ↦
      let e : pending (row ∷ rows) ≡ pending rows = rw n refl in
      subst (λ list. Left list (row ∷ rows)) (sym e) (rw n refl, Left-pending rows h.1)
]

unknown-settled : (x : Execution) → is_running (unknown x) ≡ false
unfolding is_running bytes_equal
unknown-settled x = refl

update-Left :
    (x : Execution) (list : List Execution) (rows : List Row)
    → Left (x ∷ list) rows
    → Left list (update (unknown x) rows)
unfolding update named
update-Left x list [] h = tt
update-Left x list (row ∷ rows) h = elim (Bool-cases (bytes_equal row.id x.id)) [
  | inl s ↦ rw s (rw (unknown-settled x) refl, update-Left x list rows h.1)
  | inr d ↦
      let other : bytes_equal x.id row.id ≡ false = bytes_equal_comm x.id row.id ∙ d in
      rw d ((let l = h.0 in ground (arith, other)), update-Left x list rows h.1)
]

answer-Hoare :
    (P : List Row → List Task → Type 0) (list : List (Option Fault)) (db : Db)
    → P db.executions db.tasks
    → Post {A = Unit {0}} (λ _ d. P d.executions d.tasks) (λ d. Unit {0}) (answer list db)
unfolding answer
answer-Hoare P [] db p = p
answer-Hoare P (none ∷ later) db p = p
answer-Hoare P (some e ∷ later) db p = tt

abbrev Tables : (List Row → List Task → Type 0) → Db → Type 0
Tables P db = P db.executions db.tasks

statement-Hoare :
    (P : List Row → List Task → Type 0) → Hoare (Tables P) statement (λ _. Tables P) (λ d. Unit {0})
unfolding statement
statement-Hoare P = record { at = λ db p. answer-Hoare P db.answers db p }

finish_all-Hoare :
    (list : List Execution)
    → Hoare
        (Tables (λ rows tasks. Left list rows))
        (finish_all list)
        (λ _. Tables (λ rows tasks. Left [] rows))
        (λ d. Unit {0})
unfolding finish_all finish
finish_all-Hoare [] = Hoare-pure tt (λ db p. p)
finish_all-Hoare (x ∷ list) =
    Hoare-bind
      (Hoare-bind (statement-Hoare (λ rows tasks. Left (x ∷ list) rows))
        λ _. record { at = λ db p. update-Left x list db.executions p })
      λ _. finish_all-Hoare list

-- a task after the restart
pub record Settled (t : Task) : Type 0 where
  pub inactive : active t ≡ false
  pub revoked : t.grant.expires_at ≡ 0

interrupted-Settled : (t : Task) → Settled (interrupted t)
unfolding interrupted bytes_equal
interrupted-Settled t = record { inactive = still (active t) t.status refl; revoked = refl }
  where
    still :
        (b : Bool) (status : Bytes)
        → (bytes_equal status (codes "running") || bytes_equal status (codes "awaiting_approval"))
          ≡ b
        → (let s = if b then codes "interrupted" else status in
            bytes_equal s (codes "running") || bytes_equal s (codes "awaiting_approval"))
          ≡ false
    still true status h = refl
    still false status h = h

in_tasks : Bytes → List Task → Bool
in_tasks id [] = false
in_tasks id (t ∷ tasks) = bytes_equal t.id id || in_tasks id tasks

-- Every stored task is settled or still to be stored again.
abbrev Due : List Task → Task → Type 0
Due list t = (in_tasks t.id list ≡ true) ⊎ Settled t

abbrev Rest : List Task → List Task → Type 0
Rest list tasks = All (Due list) tasks

Rest-all :
    (more tasks : List Task)
    → ((id : Bytes) → in_tasks id tasks ≡ true → in_tasks id more ≡ true)
    → Rest more tasks
unfolding in_tasks
Rest-all more [] h = tt
Rest-all more (t ∷ tasks) h = (
  inl (h t.id (rw (bytes_equal_refl t.id) refl)),
  Rest-all more tasks (λ id k. h id (ground (arith, k))),
)

Due-later :
    (t old : Task) (list : List Task)
    → bytes_equal old.id t.id ≡ false
    → Due (t ∷ list) old
    → Due list old
unfolding in_tasks
Due-later t old list d (inl m) = let o = bytes_equal_comm t.id old.id ∙ d in inl (ground (arith, o))
Due-later t old list d (inr s) = inr s

replace-Rest :
    (t : Task) (list tasks : List Task)
    → Rest (t ∷ list) tasks
    → Rest list (replace (interrupted t) tasks)
unfolding replace interrupted
replace-Rest t list [] h = tt
replace-Rest t list (old ∷ tasks) h = elim (Bool-cases (bytes_equal old.id t.id)) [
  | inl s ↦ rw s (inr (interrupted-Settled t), replace-Rest t list tasks h.1)
  | inr d ↦ rw d (Due-later t old list d h.0, replace-Rest t list tasks h.1)
]

append-Rest :
    (t : Task) (list tasks : List Task)
    → has_task t.id tasks ≡ false
    → Rest (t ∷ list) tasks
    → Rest list (tasks ++ interrupted t ∷ [])
unfolding has_task
append-Rest t list [] n h = (inr (interrupted-Settled t), tt)
append-Rest t list (old ∷ tasks) n h =
    (Due-later t old list (ground arith) h.0, append-Rest t list tasks (ground arith) h.1)

put_in-Rest :
    (t : Task) (list tasks : List Task)
    → Rest (t ∷ list) tasks
    → Rest list (put_in (interrupted t) tasks)
unfolding put_in interrupted
put_in-Rest t list tasks h = elim (Bool-cases (has_task t.id tasks)) [
  | inl s ↦ rw s (replace-Rest t list tasks h)
  | inr n ↦ rw n (append-Rest t list tasks n h)
]

abbrev Recovered : List Task → List Row → List Task → Type 0
Recovered list rows tasks = Left [] rows × Rest list tasks

put_all-Hoare :
    (list : List Task)
    → Hoare (Tables (Recovered list)) (put_all list) (λ _. Tables (Recovered [])) (λ d. Unit {0})
unfolding put_all put_task
put_all-Hoare [] = Hoare-pure tt (λ db p. p)
put_all-Hoare (t ∷ list) =
    Hoare-bind
      (Hoare-if (bytes_equal (interrupted t).id []) (λ _. Hoare-fail empty_id (λ db p. tt))
        λ _.
          Hoare-bind (statement-Hoare (Recovered (t ∷ list)))
            λ _. record { at = λ db p. (p.0, put_in-Rest t list db.tasks p.1) })
      λ _. put_all-Hoare list

recover-Hoare :
    Hoare (λ db. Sound db.executions) recover (λ _. Tables (Recovered [])) (λ d. Unit {0})
unfolding recover
recover-Hoare = Hoare-bind (statement-Hoare (λ rows tasks. Sound rows)) λ _.
    Hoare-gets (λ db. pending db.executions)
      λ list.
        Hoare-before {P' = Tables (λ rows tasks. Left list rows)}
          (λ db p. subst (λ l. Left l db.executions) p.1 (Left-pending db.executions p.0))
          (Hoare-bind (finish_all-Hoare list) λ _.
            Hoare-bind (statement-Hoare (λ rows tasks. Left [] rows)) λ _.
              Hoare-gets (λ db. db.tasks)
                λ tasks.
                  Hoare-before {P' = Tables (Recovered tasks)}
                    (λ db p. (
                      p.0,
                      subst (λ l. Rest l db.tasks) p.1 (Rest-all db.tasks db.tasks (λ id k. k)),
                    ))
                    (put_all-Hoare tasks))

none-Left : (rows : List Row) → Left [] rows → All (λ row. is_running row.payload ≡ false) rows
unfolding named
none-Left [] h = tt
none-Left (row ∷ rows) h = (let l = h.0 in ground arith, none-Left rows h.1)

none_due : (tasks : List Task) → Rest [] tasks → All Settled tasks
unfolding in_tasks
none_due [] h = tt
none_due (t ∷ tasks) h = (elim h.0 [ inl m ↦ cc | inr s ↦ s ], none_due tasks h.1)

ok-Post :
    (Q : Db → Type 0) (x : Result Fault (Unit {0}) × Db)
    → x.0 ≡ ok tt
    → Post (λ _. Q) (λ d. Unit {0}) x
    → Q x.1
ok-Post Q (ok u, db) e p = p
ok-Post Q (err f, db) e p = cc

-- When `Recover` succeeds, no stored operation seems to run any more, no task is running or waits for an
-- approval, and the grant of every task has expired. Before it each row holds the record of its own
-- identifier.
pub recover_settles :
    (db : Db)
    → Sound db.executions
    → (recover db).0 ≡ ok tt
    → All (λ row. is_running row.payload ≡ false) (recover db).1.executions
      × All Settled (recover db).1.tasks
recover_settles db sound e =
    let p = ok-Post (Tables (Recovered [])) (recover db) e (recover-Hoare.at db sound) in
    (none-Left (recover db).1.executions p.0, none_due (recover db).1.tasks p.1)
