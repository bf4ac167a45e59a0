-- ===== src/Agent/Gate.antt =====
-- internal/agent/tools.go: `executeTool` up to the call of the executor, with `checkKnownResults`
-- (verification.go), `attachedFile` (attachments.go), `CanonicalPath` (localfiles) and `Mutates` (remote).
pub mod Authorized
use nex_shell.Prelude.{
  ℕ, Bool, true, false, not, ◌&&◌, ◌||◌, Option, none, some, List, [], ◌∷◌, ◌++◌, if◌then◌else◌,
  Bytes, codes, bytes_equal, Result, ok, err,
}
use nex_shell.Agent.Paths.{is_empty, join, clean, clean_elements, validate_path}
use nex_shell.Agent.Policy.{Refusal, is, evaluate, approved_for, is_local, evaluate_local}
use nex_shell.Agent.Types.{Host, Task, Request, Approval, Encoders, request_digest}
use nex_shell.Store.{Execution}
use nex_shell.Zmodem.Files.{base}

-- what a load from the store gives: a record, `sql.ErrNoRows` or another error
pub data Lookup (A : Type 0) : Type 0 where
  found : A → Lookup A
  missing broken : Lookup A

pub record Attachment : Type 0 where
  pub path : Bytes
  pub grant_id : Bytes

-- What the service reads: the stored hosts, approvals (by digest), attachments of the task (by path, for
-- the digest of it) and results of the task, `none` if they cannot be loaded; the directory that a path
-- names once its links are followed, and the time.
pub record World : Type 0 where
  pub hosts : Bytes → Lookup Host
  pub approvals : Bytes → Lookup Approval
  pub attachments : Bytes → Lookup Attachment
  pub results : Option (List Execution)
  pub eval_symlinks : Bytes → Option Bytes
  pub now : ℕ

-- `filepath.Dir`, of a path that is its own `Clean`
all_but_last : List Bytes → List Bytes
all_but_last [] = []
all_but_last (c ∷ []) = []
all_but_last (c ∷ d ∷ rest) = c ∷ all_but_last (d ∷ rest)

unfoldable pub dir : Bytes → Bytes
unfolding all_but_last
dir p = b'/' ∷ join (all_but_last (clean_elements p))

-- `CanonicalPath`
below_parent : Bytes → Option Bytes → Option Bytes
below_parent p none = none
below_parent p (some parent) =
    if bytes_equal (dir p) p then some parent else some (clean (parent ++ (b'/' ∷ base p)))

unfoldable pub canonical_path : (Bytes → Option Bytes) → Bytes → Option Bytes
unfolding below_parent
canonical_path eval_symlinks p =
    if not (validate_path p) then none else below_parent p (eval_symlinks (dir p))

with_path : Request → Option Bytes → Option Request
with_path r none = none
with_path r (some p) = some (record r { local_path = p })

unfoldable pub canonical_request : (Bytes → Option Bytes) → Request → Option Request
unfolding with_path
canonical_request eval_symlinks r =
    if is_empty r.local_path
    then some r
    else with_path r (canonical_path eval_symlinks r.local_path)

unfoldable pub mutates : Bytes → Bool
mutates op =
    is "upload_local" op
    || is "terminal_write" op
    || is "file_write" op
    || is "service_restart" op
    || is "package_install" op
    || is "shell" op

unfoldable pub unsettled : List Execution → Bool
unsettled [] = false
unsettled (x ∷ results) =
    let rest = unsettled results in
    if is_local x.request.operation
    then rest
    else (is "unknown" x.status || is "running" x.status) || rest

-- `checkKnownResults`; `false` is the error
unfoldable pub known_results : Option (List Execution) → Bool
known_results none = false
known_results (some results) = not (unsettled results)

-- `attachedFile`; `none` is the error
unfoldable pub attached : Lookup Attachment → Task → Bytes → Option Bool
attached missing t p = some false
attached broken t p = none
attached (found a) t p = some (bytes_equal a.grant_id t.grant.id && bytes_equal a.path p)

-- How `executeTool` ends, or goes on: `runs` calls the executor with the request. `corrects` goes back to
-- the model, `fails` ends the turn.
pub data Outcome : Type 0 where
  corrects fails declined : Outcome
  asks runs : Request → Outcome

-- the errors on the way to the decision
pub data Stop : Type 0 where
  correct fail : Stop

or_attached : Lookup Attachment → Task → Request → Result Refusal Bool → Result Stop Bool
or_attached a t r (err e) = err correct
or_attached a t r (ok true) = ok true
or_attached a t r (ok false) = elim (attached a t r.local_path) [
  | none ↦ err correct
  | some b ↦ ok b
]

as_stop : Result Refusal Bool → Result Stop Bool
as_stop (err e) = err correct
as_stop (ok b) = ok b

unfoldable pub allowed_remote : Encoders → World → Task → Request → Lookup Host → Result Stop Bool
unfolding as_stop
allowed_remote encoders w t r missing = err correct
allowed_remote encoders w t r broken = err fail
allowed_remote encoders w t r (found h) =
    if mutates r.operation && not (known_results w.results)
    then err fail
    else as_stop (evaluate encoders t h r w.now)

unfoldable pub allowed : Encoders → World → Task → Request → Result Stop Bool
unfolding or_attached
allowed encoders w t r =
    if is_local r.operation
    then or_attached (w.attachments r.local_path) t r (evaluate_local t r w.now)
    else allowed_remote encoders w t r (w.hosts r.host_id)

-- what a stored approval makes of a request that is not allowed by itself
unfoldable pub by_approval : Encoders → Task → Request → Lookup Approval → Outcome
by_approval encoders t r missing = asks r
by_approval encoders t r broken = fails
by_approval encoders t r (found a) =
    if a.decided && bytes_equal a.grant_id t.grant.id && not a.approved
    then declined
    else if not (approved_for encoders a t r)
    then asks r
    else runs r

decided : Encoders → World → Task → Request → Result Stop Bool → Outcome
decided encoders w t r (err correct) = corrects
decided encoders w t r (err fail) = fails
decided encoders w t r (ok true) = runs r
decided encoders w t r (ok false) =
    by_approval encoders t r (w.approvals (request_digest encoders r))

of_canonical : Encoders → World → Task → Option Request → Outcome
of_canonical encoders w t none = corrects
of_canonical encoders w t (some r) = decided encoders w t r (allowed encoders w t r)

unfoldable pub execute_tool : Encoders → World → Task → Request → Outcome
unfolding decided of_canonical
execute_tool encoders w t r = of_canonical encoders w t (canonical_request w.eval_symlinks r)
