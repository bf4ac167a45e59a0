-- ===== src/Agent/Policy.antt =====
-- internal/agent/policy.go: which requests the assistant may carry out without asking.
pub mod Sound
pub mod Local
use nex_shell.Prelude.{
  String, ℕ, zero, Bool, true, false, not, ◌&&◌, ◌||◌, Option, none, some, List, [], ◌∷◌, ◌==◌, ltb,
  if◌then◌else◌, Bytes, length, codes, bytes_equal, Result, ok, err,
}
use nex_shell.Agent.Paths.{has_byte, is_abs, clean, validate_path, within}
use nex_shell.Agent.Types.{
  ℤ, pos, negsuc, Host, Grant, Task, Request, Approval, member, value_of, Encoders, host_digest,
  request_digest,
}
use nex_shell.Zmodem.Hex.{hex_decode}

pub data Refusal : Type 0 where
  outside_hosts grant_expired identity_changed unknown_operation null_byte bad_path bad_local_path
        bad_hash bad_mode bad_local_request bad_offset :
      Refusal

abbrev pub is : String → Bytes → Bool
is name op = bytes_equal op (codes name)

unfoldable pub is_known : Bytes → Bool
is_known op =
    is "upload_local" op
    || is "file_hash" op
    || is "terminal_connect" op
    || is "terminal_read" op
    || is "terminal_write" op
    || is "observe" op
    || is "service_status" op
    || is "logs" op
    || is "file_read" op
    || is "file_write" op
    || is "service_restart" op
    || is "package_install" op
    || is "shell" op

-- the operations on one file of the server
unfoldable pub on_path : Bytes → Bool
on_path op = is "file_read" op || is "file_write" op || is "upload_local" op || is "file_hash" op

unfoldable pub always_asks : Bytes → Bool
always_asks op = is "shell" op || is "terminal_write" op

-- the operations whose resource must be granted too
unfoldable pub on_resource : Bytes → Bool
on_resource op =
    is "file_hash" op
    || is "file_read" op
    || is "file_write" op
    || is "service_restart" op
    || is "package_install" op

unfoldable pub good_path : Bytes → Bool
good_path p = not (not (is_abs p) || not (bytes_equal (clean p) p) || bytes_equal p (codes "/"))

abbrev has_length : ℕ → Option Bytes → Bool
has_length n none = false
has_length n (some b) = length b == n

unfoldable pub evaluate_upload : Request → Result Refusal Bool
evaluate_upload r =
    if not (validate_path r.local_path)
    then err bad_local_path
    else if not (has_length 32 (hex_decode r.source_hash))
    then err bad_hash
    else if not (bytes_equal r.upload_mode [])
        && not (is "new" r.upload_mode)
        && not (is "replace" r.upload_mode)
        && not (is "resume" r.upload_mode)
    then err bad_mode
    else ok false

-- the last part of `Evaluate`: what the grant says of a request that is in order
unfoldable pub covered : Grant → Request → Bool
covered g r =
    if always_asks r.operation
    then false
    else if not (member r.operation g.operations)
    then false
    else if on_resource r.operation
    then member r.resource g.resources
    else true

unfoldable pub evaluate : Encoders → Task → Host → Request → ℕ → Result Refusal Bool
evaluate encoders t h r now =
    if not (bytes_equal t.id r.task_id) || not (member r.host_id t.grant.host_ids)
    then err outside_hosts
    else if not (ltb now t.grant.expires_at)
    then err grant_expired
    else if not (bytes_equal (value_of h.id t.grant.identities) (host_digest encoders h))
    then err identity_changed
    else if not (is_known r.operation)
    then err unknown_operation
    else if has_byte 0 r.resource || has_byte 0 r.command
    then err null_byte
    else if on_path r.operation && not (good_path r.resource)
    then err bad_path
    else if is "upload_local" r.operation
    then evaluate_upload r
    else ok (covered t.grant r)

unfoldable pub approved_for : Encoders → Approval → Task → Request → Bool
approved_for encoders a t r =
    a.decided
    && a.approved
    && bytes_equal a.digest (request_digest encoders r)
    && bytes_equal a.grant_id t.grant.id
    && bytes_equal a.request.task_id t.id

-- `IsOperation` of internal/localfiles
unfoldable pub is_local : Bytes → Bool
is_local op = is "local_stat" op || is "local_list" op || is "local_read" op

-- an offset other than zero, or a negative one
abbrev bad_start : Bytes → ℤ → Bool
bad_start op (negsuc n) = true
bad_start op (pos n) = not (is "local_read" op) && not (n == 0)

unfoldable pub below_any : List Bytes → Bytes → Bool
below_any [] p = false
below_any (root ∷ roots) p = let rest = below_any roots p in if within root p then true else rest

unfoldable pub evaluate_local : Task → Request → ℕ → Result Refusal Bool
evaluate_local t r now =
    if not (bytes_equal r.task_id t.id)
      || not (bytes_equal r.host_id [])
      || not (is_local r.operation)
    then err bad_local_request
    else if not (ltb now t.grant.expires_at)
    then err grant_expired
    else if not (validate_path r.local_path)
    then err bad_local_path
    else if bad_start r.operation r.read_offset
    then err bad_offset
    else ok (below_any t.grant.local_roots r.local_path)
