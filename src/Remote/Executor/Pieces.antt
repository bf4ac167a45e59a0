-- ===== src/Remote/Executor/Pieces.antt =====
-- An operation is made of writes to the capture: what is true of these, and of actions that follow each other,
-- is true of it.
use nex_shell.Prelude.{
  Bool, true, false, not, Option, none, some, List, [], ◌∷◌, if◌then◌else◌, Bytes, bytes_equal,
  Result, ok, err, pure, ◌>>=◌,
}
use nex_shell.Agent.Policy.{is, is_local}
use nex_shell.Agent.Types.{pos, Request}
use nex_shell.Remote.Command.{BadCommand, build_command}
use nex_shell.Remote.Executor.{
  Call, Manager, write, write_all, End, written, local_end, uploaded, upload_end, hash_end,
  terminal_end, read_end, checked_end, write_end, command_end, on_terminal, operate,
}

module _ (P : (A : Type 0) → Call A → Type 0) (units : (A : Type 0) (a : A) → P A (pure a))
    (follows : (A B : Type 0) (p : Call A) (f : A → Call B)
      → P A p
      → ((a : A) → P B (f a))
      → P B (p >>= f))
    (writes : (task b : Bytes) → P (Option Bytes) (write task b)) where
  pures : {A : Type 0} (a : A) → P A (pure a)
  pures {A} a = units A a

  binds :
      {A B : Type 0} {p : Call A} {f : A → Call B} → P A p → ((a : A) → P B (f a)) → P B (p >>= f)
  binds {A} {B} {p} {f} h k = follows A B p f h k

  ifs : {A : Type 0} (b : Bool) {p q : Call A} → P A p → P A q → P A (if b then p else q)
  ifs true h k = h
  ifs false h k = k

  all-write_all : (task : Bytes) (chunks : List Bytes) → P (Unit {0}) (write_all task chunks)
  unfolding write_all
  all-write_all task [] = pures tt
  all-write_all task (b ∷ chunks) = binds (writes task b) λ _. all-write_all task chunks

  all-written : (task b : Bytes) → P End (written task b)
  unfolding written
  all-written task b = binds (writes task b) (λ e. pures (pos 0, e))

  all-local : (task : Bytes) (r : Result Bytes Bytes) → P End (local_end task r)
  unfolding local_end
  all-local task (ok b) = all-written task b
  all-local task (err e) = pures _

  all-uploaded : (task : Bytes) (e : Option Bytes) → P End (uploaded task e)
  unfolding uploaded
  all-uploaded task none = pures _
  all-uploaded task (some e) = pures _

  all-upload : (r : Request) (u : Bool × Option Bytes) → P End (upload_end r u)
  unfolding upload_end
  all-upload r (started, some e) = pures _
  all-upload r (started, none) = binds (writes r.task_id _) (all-uploaded r.task_id)

  all-hash : (task : Bytes) (r : Result Bytes (Bytes × Bytes)) → P End (hash_end task r)
  unfolding hash_end
  all-hash task (err e) = pures _
  all-hash task (ok (hash, size)) = all-written task _

  all-terminal :
      (r : Request) (p : Option (Request → Result Bytes Bytes)) → P End (terminal_end r p)
  unfolding terminal_end
  all-terminal r none = pures _
  all-terminal r (some perform) = all-local r.task_id (perform r)

  all-read :
      (manager : Manager) (task : Bytes) (r : Result Bytes (Bytes × Bytes))
      → P End (read_end manager task r)
  unfolding read_end
  all-read manager task (err e) = pures _
  all-read manager task (ok (content, hash)) = binds (writes task _) (all-uploaded task)

  all-checked :
      (r : Request) (backup : Bytes) (found : Result Bytes (Bytes × Bytes))
      → P End (checked_end r backup found)
  unfolding checked_end
  all-checked r backup (err e) = pures _
  all-checked r backup (ok (content, hash)) =
      ifs (not (bytes_equal content r.content)) (pures _)
        (binds (writes r.task_id _) λ _. pures (pos 0, none))

  all-file :
      (manager : Manager) (r : Request) (w : Result Bytes Bytes) → P End (write_end manager r w)
  unfolding write_end
  all-file manager r (err e) = pures _
  all-file manager r (ok backup) = all-checked r backup (manager.reread_file r)

  all-command :
      (manager : Manager) (task : Bytes) (c : Result BadCommand Bytes)
      → P End (command_end manager task c)
  unfolding command_end
  all-command manager task (err e) = pures _
  all-command manager task (ok command) =
      binds (all-write_all task (manager.command command).0) λ _. pures _

  pub operate_all : (manager : Manager) (r : Request) → P End (operate manager r)
  unfolding operate
  operate_all manager r = ifs (is_local r.operation) (all-local r.task_id (manager.inspect r)) (
      ifs (is "upload_local" r.operation) (all-upload r (manager.upload r)) (
        ifs (is "file_hash" r.operation) (all-hash r.task_id (manager.file_hash r)) (
          ifs (on_terminal r.operation) (all-terminal r manager.perform) (
            ifs (is "file_read" r.operation) (all-read manager r.task_id (manager.read_file r)) (
              ifs (is "file_write" r.operation) (all-file manager r (manager.write_file r))
                (all-command manager r.task_id (build_command manager.monitor_script r)))))))
