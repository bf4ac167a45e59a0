-- ===== src/Agent/Policy/Local.antt =====
-- What a permission of `EvaluateLocal` means.
use nex_shell.Prelude.{
  ℕ, ◌<◌, ◌≡◌, refl, Bool, true, not, ◌||◌, List, [], ◌∷◌, arith, ltb, Bytes, Bool-cases, inl, inr,
  bytes_equal, bytes_equal→eq, bytes_equal_refl, passed, ok,
}
use nex_shell.Agent.Paths.{clean_elements, is_abs, validate_path, within}
use nex_shell.Agent.Paths.Within.{Below, within-entries}
use nex_shell.Agent.Policy.{
  bad_local_request, grant_expired, bad_local_path, bad_offset, is_local, bad_start, below_any,
  evaluate_local,
}
use nex_shell.Agent.Types.{Task, Request, member}

-- one of the roots that a path lies below
pub BelowOne : List Bytes → Bytes → Type 0
BelowOne roots p =
    (root : Bytes) × ((member root roots ≡ true) × Below (clean_elements root) (clean_elements p))

below_any-BelowOne :
    (roots : List Bytes) (p : Bytes) → is_abs p ≡ true → below_any roots p ≡ true → BelowOne roots p
unfolding below_any member BelowOne
below_any-BelowOne [] p pa h = cc
below_any-BelowOne (root ∷ roots) p pa h = elim (Bool-cases (within root p)) [
  | inl w ↦ (root, (rw (bytes_equal_refl root) refl, within-entries root p pa w))
  | inr nw ↦
      let (found, (m, b)) = below_any-BelowOne roots p pa (rw nw at h) in (found, (ground arith, b))
]

-- what `EvaluateLocal` has tested
pub record LocalInOrder (t : Task) (r : Request) (now : ℕ) : Type 0 where
  pub same_task : r.task_id ≡ t.id
  pub no_host : r.host_id ≡ []
  pub local_operation : is_local r.operation ≡ true
  pub fresh : now < t.grant.expires_at
  pub valid : validate_path r.local_path ≡ true

pub evaluate_local-InOrder :
    (t : Task) (r : Request) (now : ℕ) (answer : Bool)
    → evaluate_local t r now ≡ ok answer
    → LocalInOrder t r now × (below_any t.grant.local_roots r.local_path ≡ answer)
unfolding evaluate_local
evaluate_local-InOrder t r now answer h =
    let (p1, k1) =
      passed
        (not (bytes_equal r.task_id t.id)
          || not (bytes_equal r.host_id [])
          || not (is_local r.operation))
        bad_local_request _ h in
    let (p2, k2) = passed (not (ltb now t.grant.expires_at)) grant_expired _ k1 in
    let (p3, k3) = passed (not (validate_path r.local_path)) bad_local_path _ k2 in
    let (p4, k4) = passed (bad_start r.operation r.read_offset) bad_offset _ k3 in
    (
      record {
        same_task = bytes_equal→eq r.task_id t.id (ground arith);
        no_host = bytes_equal→eq r.host_id [] (ground arith);
        local_operation = ground arith;
        fresh = ground arith;
        valid = ground arith;
      },
      cc,
    )

validate_path-is_abs : (p : Bytes) → validate_path p ≡ true → is_abs p ≡ true
unfolding validate_path
validate_path-is_abs p h = ground arith

-- `EvaluateLocal` permits a request without asking only for the request's own task, for a read-only
-- operation on this machine, before the grant expires, and for a canonical path at or below one of the
-- granted directories, entry by entry.
pub evaluate_local_sound :
    (t : Task) (r : Request) (now : ℕ)
    → evaluate_local t r now ≡ ok true
    → LocalInOrder t r now × BelowOne t.grant.local_roots r.local_path
evaluate_local_sound t r now h =
    let (order, below) = evaluate_local-InOrder t r now true h in
    (
      order,
      below_any-BelowOne t.grant.local_roots r.local_path
          (validate_path-is_abs r.local_path order.valid) below,
    )
