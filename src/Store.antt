-- ===== src/Store.antt =====
-- internal/store/store.go: the executions and the tasks in the database.
--
-- A row holds the value whose JSON text the source stores. `answers` is what the database says to the next
-- statements: `none`, or past the end, that they succeed.
pub mod Claims
pub mod Once
pub mod Recovery
pub mod Queries
pub mod Changes
mod Tests
use nex_shell.Prelude.{
  ℕ, Bool, true, false, not, ◌&&◌, ◌||◌, Option, none, some, List, [], ◌∷◌, ◌++◌, if◌then◌else◌,
  Bytes, codes, bytes_equal, Result, ok, err, Exec, pure, fail, gets, modify, ◌>>=◌, ◌>>◌,
}
use nex_shell.Agent.Types.{ℤ, pos, negsuc, Grant, Task, Request, Encoders, request_digest}

pub data Fault : Type 0 where
  statement_failed : ℕ → Fault
  empty_id id_taken no_rows call_reused : Fault

-- `Result` of internal/domain
pub record Execution : Type 0 where
  pub id : Bytes
  pub request : Request
  pub status : Bytes
  pub exit_code : ℤ
  pub output : Bytes
  pub artifact : Bytes
  pub error : Bytes
  pub started_at : ℕ
  pub finished_at : ℕ

-- a row of the table of executions
pub record Row : Type 0 where
  pub id : Bytes
  pub task_id : Bytes
  pub call_id : Bytes
  pub digest : Bytes
  pub payload : Execution

-- The tasks are the documents of that kind; the other kinds take no part in what is modelled.
pub record Db : Type 0 where
  pub executions : List Row
  pub tasks : List Task
  pub answers : List (Option Fault)

abbrev pub Action : Type 0 → Type 0
Action A = Exec Fault Db A

answer : List (Option Fault) → Action Unit
answer [] db = (ok tt, db)
answer (none ∷ later) db = (ok tt, record db { answers = later })
answer (some e ∷ later) db = (err e, record db { answers = later })

-- one statement, as far as it may fail
unfoldable pub statement : Action Unit
unfolding answer
statement db = answer db.answers db

abbrev pub same_call : Bytes → Bytes → Row → Bool
same_call task call row = bytes_equal row.task_id task && bytes_equal row.call_id call

unfoldable pub find_call : Bytes → Bytes → List Row → Option Row
find_call task call [] = none
find_call task call (row ∷ rows) =
    let rest = find_call task call rows in if same_call task call row then some row else rest

unfoldable pub has_id : Bytes → List Row → Bool
has_id id [] = false
has_id id (row ∷ rows) = bytes_equal row.id id || has_id id rows

-- `INSERT … ON CONFLICT(task_id,call_id) DO NOTHING`
unfoldable pub insert : Row → Option Row → Action Unit
insert row (some old) = pure tt
insert row none = do
  taken ← gets (λ db. has_id row.id db.executions)
  if taken
      then fail id_taken
      else modify (λ db. record db { executions = db.executions ++ row ∷ [] })

-- the record of a call that is about to be made
abbrev pub started : Bytes → ℕ → Request → Execution
started id now req = record {
  id = id;
  request = req;
  status = codes "running";
  exit_code = negsuc 0;
  output = [];
  artifact = [];
  error = [];
  started_at = now;
  finished_at = 0;
}

abbrev pub new_row : Encoders → Bytes → ℕ → Request → Row
new_row encoders id now req = record {
  id = id;
  task_id = req.task_id;
  call_id = req.call_id;
  digest = request_digest encoders req;
  payload = started id now req;
}

-- what `Claim` makes of the row that is stored then
unfoldable pub confirmed : Encoders → Bytes → Request → Option Row → Action (Execution × Bool)
confirmed encoders id req none = fail no_rows
confirmed encoders id req (some row) =
    if not (bytes_equal row.digest (request_digest encoders req))
    then fail call_reused
    else pure (row.payload, bytes_equal row.payload.id id)

-- `Claim`, with the identifier and the time that it draws; `true` beside the result says that the call
-- is new and is to be made
unfoldable pub claim : Encoders → Bytes → ℕ → Request → Action (Execution × Bool)
claim encoders id now req = do
  statement
  old ← gets (λ db. find_call req.task_id req.call_id db.executions)
  insert (new_row encoders id now req) old
  statement
  stored ← gets (λ db. find_call req.task_id req.call_id db.executions)
  confirmed encoders id req stored

-- `UPDATE executions SET payload=? WHERE id=?`
unfoldable pub update : Execution → List Row → List Row
update x [] = []
update x (row ∷ rows) =
    let rest = update x rows in
    if bytes_equal row.id x.id then record row { payload = x } ∷ rest else row ∷ rest

-- `Finish`
unfoldable pub finish : Execution → Action Unit
finish x = do statement; modify (λ db. record db { executions = update x db.executions })

unfoldable pub is_running : Execution → Bool
is_running x = bytes_equal x.status (codes "running")

unfoldable pub pending : List Row → List Execution
pending [] = []
pending (row ∷ rows) =
    let rest = pending rows in if is_running row.payload then row.payload ∷ rest else rest

-- The text of the error is in Chinese in the source: that the outcome is to be checked.
abbrev pub unknown : Execution → Execution
unknown x = record x { status = codes "unknown"; error = codes "unverified" }

unfoldable pub finish_all : List Execution → Action Unit
finish_all [] = pure tt
finish_all (x ∷ list) = do finish (unknown x); finish_all list

abbrev pub active : Task → Bool
active t =
    bytes_equal t.status (codes "running") || bytes_equal t.status (codes "awaiting_approval")

-- a task after a restart
unfoldable pub interrupted : Task → Task
interrupted t = record t {
  status = if active t then codes "interrupted" else t.status;
  grant = record t.grant { expires_at = 0 };
}

-- `Put` of a task: its identifier is the key
unfoldable pub has_task : Bytes → List Task → Bool
has_task id [] = false
has_task id (t ∷ tasks) = bytes_equal t.id id || has_task id tasks

unfoldable pub replace : Task → List Task → List Task
replace t [] = []
replace t (old ∷ tasks) =
    let rest = replace t tasks in if bytes_equal old.id t.id then t ∷ rest else old ∷ rest

unfoldable pub put_in : Task → List Task → List Task
put_in t tasks = if has_task t.id tasks then replace t tasks else tasks ++ t ∷ []

unfoldable pub put_task : Task → Action Unit
put_task t =
    if bytes_equal t.id []
    then fail empty_id
    else (do statement; modify (λ db. record db { tasks = put_in t db.tasks }))

unfoldable pub put_all : List Task → Action Unit
put_all [] = pure tt
put_all (t ∷ tasks) = do put_task (interrupted t); put_all tasks

-- `Recover`
unfoldable pub recover : Action Unit
recover = do
  statement
  list ← gets (λ db. pending db.executions)
  finish_all list
  statement
  tasks ← gets (λ db. db.tasks)
  put_all tasks
