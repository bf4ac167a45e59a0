-- ===== src/Remote/Executor.antt =====
-- internal/remote/executor.go: `Execute`, with the capture of the output.
--
-- The servers, the files of this machine and the desktop's terminals are parameters, as are the lock of a
-- server, the check of the authority behind it, the artifact's file and what the writes to it give. An
-- execution is one step: others take place before or behind it.
pub mod Pieces
pub mod Tame
pub mod Outcome
pub mod Once
use nex_shell.Prelude.{
  ℕ, ◌+◌, ◌-◌, Bool, true, false, not, ◌&&◌, ◌||◌, Option, none, some, List, [], ◌∷◌, ◌++◌, ◌==◌,
  ltb, if◌then◌else◌, Bytes, codes, bytes_equal, length, take, Result, ok, err, Exec, pure, fail,
  gets, modify, ◌>>=◌, ◌>>◌,
}
use nex_shell.Agent.Gate.{mutates}
use nex_shell.Agent.Paths.{is_empty}
use nex_shell.Agent.Policy.{is, is_local}
use nex_shell.Agent.Types.{ℤ, pos, negsuc, Request, Encoders}
use nex_shell.Remote.Command.{BadCommand, build_command}
use nex_shell.Store.{Fault, Execution, Db, Action, statement, claim, finish}

-- The database and the events in it, the requests that were carried out, and the capture of the last one: what
-- stands in its file, the part of the output that is kept, and its error. `writes` is what the file system says
-- to the next writes: `none`, or past the end, that they succeed, else how much was written, and the error.
pub record Machine : Type 0 where
  pub db : Db
  pub events : List (Bytes × Bytes)
  pub sent : List Request
  pub file : Bytes
  pub prefix : Bytes
  pub error : Option Bytes
  pub writes : List (Option (ℕ × Bytes))

pub data Trouble : Type 0 where
  no_identity cancelled unauthorized : Trouble
  store_failed : Fault → Trouble
  no_artifact : Bytes → Trouble

abbrev pub Call : Type 0 → Type 0
Call A = Exec Trouble Machine A

-- What the operations give: an error, or a text of what was found. An upload says too whether it had begun, and
-- a command writes its output in chunks and has an exit code.
pub record Manager : Type 0 where
  pub inspect : Request → Result Bytes Bytes
  pub upload : Request → Bool × Option Bytes
  pub file_hash : Request → Result Bytes (Bytes × Bytes)
  pub perform : Option (Request → Result Bytes Bytes)
  pub read_file : Request → Result Bytes (Bytes × Bytes)
  pub write_file : Request → Result Bytes Bytes
  pub reread_file : Request → Result Bytes (Bytes × Bytes)
  pub file_json : Bytes → Bytes → Bytes
  pub command : Bytes → List Bytes × (ℤ × Option Bytes)
  pub monitor_script : Bytes

pub record Env : Type 0 where
  pub encoders : Encoders
  pub manager : Manager
  pub fresh_id : Bytes
  pub now : ℕ
  pub finished_at : ℕ
  pub locked : Bool
  pub authorized : Bool
  pub artifact : Bytes → Result Bytes Bytes

abbrev pub guard : Bool → Trouble → Call (Unit {0})
guard b e = if b then pure tt else fail e

abbrev with_db : {A : Type 0} → Result Fault A × Db → Machine → Result Trouble A × Machine
with_db (ok a, db) m = (ok a, record m { db = db })
with_db (err e, db) m = (err (store_failed e), record m { db = db })

abbrev pub stored : {A : Type 0} → Action A → Call A
stored act m = with_db (act m.db) m

-- an action of the store whose error is a value
abbrev seen :
    {A : Type 0} → Result Fault A × Db → Machine → Result Trouble (Result Fault A) × Machine
seen (r, db) m = (ok r, record m { db = db })

abbrev pub tried : {A : Type 0} → Action A → Call (Result Fault A)
tried act m = seen (act m.db) m

-- the write to the artifact's file
next_write : List (Option (ℕ × Bytes)) → Bytes → Call (Option Bytes)
next_write [] b m = (ok none, record m { file = m.file ++ b })
next_write (none ∷ later) b m = (ok none, record m { file = m.file ++ b; writes = later })
next_write (some (n, e) ∷ later) b m =
    (ok (some e), record m { file = m.file ++ take n b; error = some e; writes = later })

unfoldable pub out_write : Bytes → Call (Option Bytes)
unfolding next_write
out_write b m = next_write m.writes b m

-- the event of a chunk: `onChunk`, which sets the error of the capture
noted : Bytes → Bytes → Option Bytes → Result Fault (Unit {0}) → Call (Option Bytes)
noted task part wrote (ok u) = do
  modify (λ m. record m { events = m.events ++ (task, part) ∷ [] })
  pure wrote
noted task part wrote (err e) = do
  modify (λ m. record m { error = some (codes "event") })
  pure (some (codes "event"))

-- `Write` of the capture: the error that it returns
unfoldable pub write : Bytes → Bytes → Call (Option Bytes)
unfolding noted
write task b = do
  wrote ← out_write b
  size ← gets (λ m. length m.prefix)
  let part = take (32768 - size) b
  if ltb size 32768
      then (do
        modify (λ m. record m { prefix = m.prefix ++ part })
        told ← tried statement
        noted task part wrote told)
      else pure wrote

unfoldable pub write_all : Bytes → List Bytes → Call (Unit {0})
write_all task [] = pure tt
write_all task (b ∷ chunks) = do write task b; write_all task chunks

-- what an operation ends with: the exit code, -1 if it is not known, and the error
abbrev pub End : Type 0
End = ℤ × Option Bytes

abbrev no_code : ℤ
no_code = negsuc 0

-- text that is written, with exit code 0 whatever comes of the write
written : Bytes → Bytes → Call End
written task b = do e ← write task b; pure (pos 0, e)

local_end : Bytes → Result Bytes Bytes → Call End
unfolding written
local_end task (err e) = pure (no_code, some e)
local_end task (ok payload) = written task payload

-- an upload that was done is reported; only one that had not begun has an exit code with its error
uploaded : Bytes → Option Bytes → Call End
uploaded task none = pure (pos 0, none)
uploaded task (some e) = pure (no_code, some e)

upload_end : Request → Bool × Option Bytes → Call End
unfolding uploaded
upload_end r (started, some e) = pure (if started then no_code else pos 0, some e)
upload_end r (started, none) = do
  e ← write r.task_id (codes "uploaded: " ++ r.resource ++ codes "\nsha256=" ++ r.source_hash)
  uploaded r.task_id e

hash_end : Bytes → Result Bytes (Bytes × Bytes) → Call End
unfolding written
hash_end task (err e) = pure (no_code, some e)
hash_end task (ok (hash, size)) = written task (codes "sha256=" ++ hash ++ codes "\nsize=" ++ size)

terminal_end : Request → Option (Request → Result Bytes Bytes) → Call End
unfolding local_end
terminal_end r none = pure (no_code, some (codes "no terminals"))
terminal_end r (some perform) = local_end r.task_id (perform r)

-- a file that was read has an exit code once it is written out
read_end : Manager → Bytes → Result Bytes (Bytes × Bytes) → Call End
unfolding uploaded
read_end manager task (err e) = pure (no_code, some e)
read_end manager task (ok (content, hash)) = do
  e ← write task (manager.file_json content hash)
  uploaded task e

checked_end : Request → Bytes → Result Bytes (Bytes × Bytes) → Call End
checked_end r backup (err e) = pure (no_code, some e)
checked_end r backup (ok (content, hash)) =
    if not (bytes_equal content r.content)
    then pure (no_code, some (codes "content differs"))
    else (do
      write r.task_id (codes "written sha256=" ++ hash ++ codes " backup=" ++ backup)
      pure (pos 0, none))

write_end : Manager → Request → Result Bytes Bytes → Call End
unfolding checked_end
write_end manager r (err e) = pure (no_code, some e)
write_end manager r (ok backup) = checked_end r backup (manager.reread_file r)

command_end : Manager → Bytes → Result BadCommand Bytes → Call End
command_end manager task (err e) = pure (no_code, some (codes "bad command"))
command_end manager task (ok command) = do
  write_all task (manager.command command).0
  pure (manager.command command).1

abbrev on_terminal : Bytes → Bool
on_terminal op = is "terminal_connect" op || is "terminal_read" op || is "terminal_write" op

-- the `switch` on the operation
unfoldable pub operate : Manager → Request → Call End
unfolding local_end upload_end hash_end terminal_end read_end write_end command_end
operate manager r =
    if is_local r.operation
    then local_end r.task_id (manager.inspect r)
    else if is "upload_local" r.operation
    then upload_end r (manager.upload r)
    else if is "file_hash" r.operation
    then hash_end r.task_id (manager.file_hash r)
    else if on_terminal r.operation
    then terminal_end r manager.perform
    else if is "file_read" r.operation
    then read_end manager r.task_id (manager.read_file r)
    else if is "file_write" r.operation
    then write_end manager r (manager.write_file r)
    else command_end manager r.task_id (build_command manager.monitor_script r)

unfoldable pub is_negative : ℤ → Bool
is_negative (pos n) = false
is_negative (negsuc n) = true

-- the operations after which nothing is left open
unfoldable pub is_harmless : Bytes → Bool
is_harmless op =
    is_local op
    || is "file_hash" op
    || is "file_read" op
    || is "terminal_read" op
    || is "terminal_connect" op

unfoldable pub status_of : Bytes → ℤ → Option Bytes → Bytes
status_of op code none = codes "succeeded"
status_of op code (some e) =
    if is_negative code && not (is_harmless op) then codes "unknown" else codes "failed"

unfoldable pub error_text : Bytes → Option Bytes → Bytes
error_text before none = before
error_text before (some e) = e

-- the error of the capture comes before that of the operation
unfoldable pub first_error : Option Bytes → Option Bytes → Option Bytes
first_error (some e) other = some e
first_error none other = other

unfoldable pub concluded : Env → Request → Execution → End → Option Bytes → Bytes → Execution
concluded env r x (code, e) cap_error output = record x {
  exit_code = code;
  output = output;
  finished_at = env.finished_at;
  status = status_of r.operation code (first_error cap_error e);
  error = error_text x.error (first_error cap_error e);
}

-- the operation with a new capture, up to the result
unfoldable pub run_operation : Env → Request → Execution → Call Execution
run_operation env r x = do
  modify (λ m. record m { sent = m.sent ++ r ∷ []; file = []; prefix = []; error = none })
  end ← operate env.manager r
  cap_error ← gets (λ m. m.error)
  output ← gets (λ m. m.prefix)
  pure (concluded env r x end cap_error output)

-- with the artifact's file, or without it
unfoldable pub run_with : Env → Request → Execution → Result Bytes Bytes → Call Execution
run_with env r x (err e) = do
  tried (finish (record x { status = codes "failed"; error = e }))
  fail (no_artifact e)
run_with env r x (ok path) = do
  stored (finish (record x { artifact = path }))
  out ← run_operation env r (record x { artifact = path })
  stored (finish out)
  pure out

unfoldable pub run_claimed : Env → Request → Execution × Bool → Call Execution
run_claimed env r (x, false) = pure x
run_claimed env r (x, true) = run_with env r x (env.artifact x.id)

abbrev pub has_identity : Request → Bool
has_identity r =
    not
      (is_empty r.task_id || is_empty r.call_id || is_empty r.host_id && not (is_local r.operation))

-- `Execute`
unfoldable pub execute : Env → Request → Call Execution
execute env r = do
  guard (has_identity r) no_identity
  guard (not (mutates r.operation) || env.locked) cancelled
  guard env.authorized unauthorized
  claimed ← stored (claim env.encoders env.fresh_id env.now r)
  run_claimed env r claimed
