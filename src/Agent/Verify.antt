-- ===== src/Agent/Verify.antt =====
-- internal/agent/verification.go: what counts as evidence that a task is done, and when all of it is there.
pub mod Evidence
pub mod Complete
use nex_shell.Prelude.{
  ℕ, Bool, true, false, not, ◌&&◌, ◌||◌, Option, none, some, List, [], ◌∷◌, ltb, if◌then◌else◌,
  Bytes, codes, bytes_equal, has_prefix, contains, Result, ok, err,
}
use nex_shell.Agent.Gate.{mutates}
use nex_shell.Agent.Policy.{is, is_local}
use nex_shell.Agent.Types.{Task, member}
use nex_shell.Store.{Execution}

pub record Verification : Type 0 where
  pub host_id : Bytes
  pub execution_id : Bytes
  pub expected_text : Bytes
  pub agent_name : Bytes
  pub at : ℕ

-- the reasons to refuse; all but `unconfirmed` go back to the model
pub data Objection : Type 0 where
  not_operator unconfirmed not_in_task unfit outdated : Objection

unfoldable pub is_open : Bytes → Bool
is_open status = is "unknown" status || is "running" status

-- the loop that looks for the execution: an open one is an error, the last one of that identifier counts
unfoldable pub find_evidence :
    Bytes → List Execution → Option Execution → Result Objection (Option Execution)
find_evidence id [] found = ok found
find_evidence id (r ∷ results) found =
    let rest = find_evidence id results (if bytes_equal r.id id then some r else found) in
    if is_open r.status then err unconfirmed else rest

unfoldable pub is_evidence : Bytes → Execution → Bool
is_evidence expected x = not (
    has_prefix (codes "terminal_") x.request.operation
    || mutates x.request.operation
    || not (is "succeeded" x.status)
    || not (contains expected x.output))

-- an execution on the same host was started later
unfoldable pub overtaken : Execution → List Execution → Bool
overtaken x [] = false
overtaken x (r ∷ results) =
    bytes_equal r.request.host_id x.request.host_id && ltb x.started_at r.started_at
    || overtaken x results

unfoldable pub check_evidence :
    Task
    → Bytes
    → List Execution
    → Bytes
    → Bytes
    → ℕ
    → Option Execution
    → Result Objection Verification
check_evidence t agent results id expected now none = err not_in_task
check_evidence t agent results id expected now (some x) =
    if not (member x.request.host_id t.grant.host_ids)
    then err not_in_task
    else if not (is_evidence expected x)
    then err unfit
    else if overtaken x results
    then err outdated
    else ok (record {
      host_id = x.request.host_id;
      execution_id = id;
      expected_text = expected;
      agent_name = agent;
      at = now;
    })

found_evidence :
    Task
    → Bytes
    → List Execution
    → Bytes
    → Bytes
    → ℕ
    → Result Objection (Option Execution)
    → Result Objection Verification
found_evidence t agent results id expected now (err e) = err e
found_evidence t agent results id expected now (ok found) =
    check_evidence t agent results id expected now found

-- `verifyResult`, up to the `Put` of what it returns here, under the host's identifier
unfoldable pub verify_result :
    Task → Bytes → List Execution → Bytes → Bytes → ℕ → Result Objection Verification
unfolding found_evidence
verify_result t agent results id expected now =
    if not (is "operator" agent)
    then err not_operator
    else found_evidence t agent results id expected now (find_evidence id results none)

unfoldable pub any_operation : List Execution → Bool
any_operation [] = false
any_operation (r ∷ results) = not (is_local r.request.operation) || any_operation results

-- `hasOperations`, of the results, `none` if they cannot be loaded
unfoldable pub has_operations : Option (List Execution) → Bool
unfolding any_operation
has_operations none = true
has_operations (some results) = any_operation results

-- the map `last`: an entry for a host replaces the one before it
unfoldable pub set_last : Execution → List (Bytes × Execution) → List (Bytes × Execution)
set_last r [] = (r.request.host_id, r) ∷ []
set_last r ((host, x) ∷ last) =
    let rest = set_last r last in
    if bytes_equal host r.request.host_id then (host, r) ∷ last else (host, x) ∷ rest

-- the loop over the results; `none` is the early `return false`
unfoldable pub last_results :
    List Execution → List (Bytes × Execution) → Option (List (Bytes × Execution))
last_results [] last = some last
last_results (r ∷ results) last =
    let skip = last_results results last in
    let next = last_results results (set_last r last) in
    if is_local r.request.operation then skip else if is_open r.status then none else next

-- a stored verification, `none` if there is none or it cannot be loaded, is of that execution
unfoldable pub verifies : Option Verification → Execution → Bool
verifies none r = false
verifies (some v) r = bytes_equal v.execution_id r.id

unfoldable pub each_verified : (Bytes → Option Verification) → List (Bytes × Execution) → Bool
each_verified load [] = true
each_verified load ((host, r) ∷ last) = verifies (load host) r && each_verified load last

unfoldable pub checked : (Bytes → Option Verification) → Option (List (Bytes × Execution)) → Bool
checked load none = false
checked load (some []) = false
checked load (some (entry ∷ last)) = each_verified load (entry ∷ last)

-- `allVerified`, of the results and the verifications of the task
unfoldable pub all_verified : Option (List Execution) → (Bytes → Option Verification) → Bool
all_verified none load = false
all_verified (some []) load = false
all_verified (some (r ∷ results)) load = checked load (last_results (r ∷ results) [])
