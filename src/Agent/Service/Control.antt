-- ===== src/Agent/Service/Control.antt =====
-- internal/agent/service.go and attachments.go: the calls that go on with a task or stop it.
use nex_shell.Prelude.{
  ◌+◌, Bool, true, false, not, ◌&&◌, ◌||◌, Option, none, some, List, [], ◌∷◌, ◌++◌, map, ltb,
  if◌then◌else◌, Bytes, codes, bytes_equal, pure, fail, gets, modify, ◌>>=◌, ◌>>◌,
}
use nex_shell.Agent.Gate.{Attachment}
use nex_shell.Agent.Policy.{is}
use nex_shell.Agent.References.{resolve_reference}
use nex_shell.Agent.Service.{
  Input, Run, stopping, grant_expired, unknown_result, not_this_task, revoked, bad_file, Env, Call,
  stored, guard, attempt, or_error, or_no_rows, event, find_run, on_run, identify, eight_hours,
}
use nex_shell.Agent.Types.{Task, Approval, member}
use nex_shell.Agent.Verify.{is_open}
use nex_shell.Store.{Execution, statement, put_task}
use nex_shell.Store.Queries.{results, load_task}
use nex_shell.Agent.Service.Start.{runtime_version, start}

-- `loop.Push`
abbrev pub push : Bytes → Input → Run → Run
push id input r = record r { inbox = r.inbox ++ input ∷ [] }

-- an update that the user gives while the task waits
unfoldable pub keep_update : Bytes → Task → Call (Unit {0})
keep_update text t =
    if is "awaiting_approval" t.status || is "interrupted" t.status
    then stored (put_task (record t { updates = t.updates ++ text ∷ [] }))
    else pure tt

unfoldable pub submit_to : Env → Bytes → Bytes → Option Run → Call (Unit {0})
unfolding keep_update
submit_to env id text (some r) =
    let input : Input = record { text = text; approval_id = [] } in
    if env.accepts
    then modify (λ s. record s { active = on_run id (push id input) s.active })
    else fail stopping
submit_to env id text none = do
  t ← stored (load_task id)
  keep_update text t
  start env id (record { text = text; approval_id = [] })

-- `Submit`, without another call between its parts: the source loads and stores the task outside the lock
unfoldable pub submit : Env → Bytes → Bytes → Call (Unit {0})
unfolding submit_to
submit env id text = do running ← gets (λ s. find_run id s.active); submit_to env id text running

unfoldable pub any_open : List Execution → Bool
any_open [] = false
any_open (r ∷ results) = is_open r.status || any_open results

-- the text is in Chinese in the source: go on, check the state first, and repeat no change
abbrev pub resume_input : Input
resume_input = record { text = codes "continue"; approval_id = [] }

-- a task under a new grant
abbrev pub renewed : Env → List (Bytes × Bytes) → Task → Task
renewed env identities t = record t {
  status = if bytes_equal t.runtime_version runtime_version then t.status else codes "interrupted";
  runtime_version = runtime_version;
  grant = record t.grant {
    id = env.fresh_grant;
    expires_at = env.now + eight_hours;
    identities = identities;
  };
}

-- `Resume`, which loads and stores the task outside the lock too
unfoldable pub resume : Env → Bytes → Call (Unit {0})
resume env id = do
  t ← stored (load_task id)
  list ← stored (results id)
  guard (not (any_open list)) unknown_result
  identities ← identify env t.grant.host_ids t.grant.identities
  stored (put_task (renewed env identities t))
  start env id resume_input

-- `Put` of an approval
unfoldable pub put_approval : Bytes → Approval → Call (Unit {0})
put_approval key a = do
  stored statement
  modify (λ s. record s { approvals = λ k. if bytes_equal k key then some a else s.approvals k })

-- the approval belongs to the task's grant, and the grant is still good
unfoldable pub is_current : Env → Task → Approval → Bool
is_current env t a =
    bytes_equal t.runtime_version runtime_version
    && bytes_equal a.grant_id t.grant.id
    && ltb env.now t.grant.expires_at

abbrev pub decided_as : Bool → Approval → Approval
decided_as accept a = record a { approved = accept; decided = true }

abbrev pub decision_input : Bytes → Input
decision_input approval_id = record { text = []; approval_id = approval_id }

-- `%s approved=%t`
abbrev pub decision_text : Bytes → Bool → Bytes
decision_text approval accept =
    approval ++ codes " approved=" ++ (if accept then codes "true" else codes "false")

-- `Decide`
unfoldable pub decide : Env → Bytes → Bytes → Bool → Call (Unit {0})
unfolding put_approval
decide env id approval_id accept = do
  stored statement
  found ← gets (λ s. s.approvals approval_id)
  a ← or_no_rows found
  guard (bytes_equal a.request.task_id id) not_this_task
  t ← stored (load_task id)
  guard (is_current env t a) revoked
  put_approval approval_id (decided_as accept a)
  event id (codes "approval_decision") (decision_text approval_id accept)
  start env id (decision_input approval_id)

abbrev pub cancelled_run : Run → Run
cancelled_run r = record r { cancelled = true }

abbrev pub broken_off : Task → Task
broken_off t = record t { status = codes "interrupted"; grant = record t.grant { expires_at = 0 } }

unfoldable pub break_off : Bytes → Option Task → Call (Unit {0})
break_off id none = pure tt
break_off id (some t) =
    if is "awaiting_approval" t.status || is "ready" t.status
    then (do
      attempt (stored (put_task (broken_off t)))
      attempt (event id (codes "task_state") (codes "interrupted"))
      pure tt)
    else pure tt

unfoldable pub cancel_found : Bytes → Option Run → Call (Unit {0})
unfolding break_off
cancel_found id (some r) = modify (λ s. record s { active = on_run id cancelled_run s.active })
cancel_found id none = do t ← attempt (stored (load_task id)); break_off id t

-- `Cancel`, likewise
unfoldable pub cancel : Bytes → Call (Unit {0})
unfolding cancel_found
cancel id = do running ← gets (λ s. find_run id s.active); cancel_found id running

-- `Stop`, and `Close` up to the wait for the runs
unfoldable pub stop : Call (Unit {0})
stop = modify (λ s. record s { closed = true; active = map cancelled_run s.active })

-- the attachments of a message: each file once, by its real path
unfoldable pub real_paths : Env → List Bytes → List Bytes → Call (List Bytes)
real_paths env [] seen = pure []
real_paths env (p ∷ paths) seen = do
  real ← or_error bad_file (resolve_reference env.files p)
  rest ← real_paths env paths (if member real seen then seen else real ∷ seen)
  pure (if member real seen then rest else real ∷ rest)

unfoldable pub put_attachment : Env → Bytes → Attachment → Call (Unit {0})
put_attachment env id a = do
  stored statement
  modify (λ s. record s {
    attachments = λ task digest.
        if bytes_equal task id && bytes_equal digest (env.path_digest a.path)
        then some a
        else s.attachments task digest;
  })

unfoldable pub put_attachments : Env → Bytes → Bytes → List Bytes → Call (Unit {0})
unfolding put_attachment
put_attachments env id grant [] = pure tt
put_attachments env id grant (p ∷ paths) = do
  put_attachment env id (record { path = p; grant_id = grant })
  put_attachments env id grant paths

-- the heading is in Chinese in the source
unfoldable pub with_files : Bytes → List Bytes → Bytes
with_files text [] = text
with_files text (p ∷ paths) = with_files (text ++ codes "\n- " ++ p) paths

unfoldable pub submit_paths : Env → Bytes → Bytes → Task → List Bytes → Call (Unit {0})
submit_paths env id text t paths = do
  guard (ltb env.now t.grant.expires_at) grant_expired
  inputs ← real_paths env paths []
  put_attachments env id t.grant.id inputs
  submit env id (with_files (text ++ codes "\n\nfiles:") inputs)

-- `SubmitFiles`
unfoldable pub submit_files : Env → Bytes → Bytes → List Bytes → Call (Unit {0})
unfolding submit_paths
submit_files env id text [] = submit env id text
submit_files env id text (p ∷ paths) = do
  t ← stored (load_task id)
  submit_paths env id text t (p ∷ paths)
