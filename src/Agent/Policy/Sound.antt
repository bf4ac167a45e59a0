-- ===== src/Agent/Policy/Sound.antt =====
-- What a permission of `Evaluate` means.
use mathlib.Core.Bool.{false≢true}
use nex_shell.Prelude.{
  ℕ, ◌<◌, ◌≡◌, ◌↔◌, refl, sym, ◌∙◌, Bool, true, false, not, ◌&&◌, ◌||◌, List, [], ◌∷◌, arith, ltb,
  if◌then◌else◌, Bytes, All, codes, Bool-cases, inl, inr, passed, bytes_equal, bytes_equal→eq,
  bytes_equal_refl, ◌≢◌, ok,
}
use nex_shell.Agent.Paths.{has_byte, clean, join, clean_elements, validate_path}
use nex_shell.Agent.Paths.Clean.{Proper, clean_elements-Proper}
use nex_shell.Agent.Policy.{
  outside_hosts, grant_expired, identity_changed, unknown_operation, null_byte, bad_path,
  bad_local_path, bad_hash, bad_mode, has_length, is, is_known, on_path, always_asks, on_resource,
  good_path, evaluate_upload, covered, evaluate,
}
use nex_shell.Zmodem.Hex.{hex_decode}
use nex_shell.Agent.Types.{Host, Task, Request, member, value_of, Encoders, host_digest}

-- the tests that any answer but an error has passed
pub record InOrder (encoders : Encoders) (t : Task) (h : Host) (r : Request) (now : ℕ)
    : Type 0 where
  pub same_task : t.id ≡ r.task_id
  pub host_granted : member r.host_id t.grant.host_ids ≡ true
  pub fresh : now < t.grant.expires_at
  pub identity : value_of h.id t.grant.identities ≡ host_digest encoders h
  pub known : is_known r.operation ≡ true
  pub no_null : (has_byte 0 r.resource || has_byte 0 r.command) ≡ false
  pub path : (not (on_path r.operation) || good_path r.resource) ≡ true

-- the tests behind a permission
pub record Permitted (encoders : Encoders) (t : Task) (h : Host) (r : Request) (now : ℕ)
    : Type 0 where
  pub in_order : InOrder encoders t h r now
  pub no_upload : is "upload_local" r.operation ≡ false
  pub not_asking : always_asks r.operation ≡ false
  pub operation_granted : member r.operation t.grant.operations ≡ true
  pub resource_granted :
      (not (on_resource r.operation) || member r.resource t.grant.resources) ≡ true

pub evaluate-InOrder :
    (encoders : Encoders) (t : Task) (h : Host) (r : Request) (now : ℕ) (answer : Bool)
    → evaluate encoders t h r now ≡ ok answer
    → InOrder encoders t h r now
      × ((if is "upload_local" r.operation then evaluate_upload r else ok (covered t.grant r))
          ≡ ok answer)
unfolding evaluate
evaluate-InOrder encoders t h r now answer k =
    let (p1, k1) =
      passed (not (bytes_equal t.id r.task_id) || not (member r.host_id t.grant.host_ids))
        outside_hosts _ k in
    let (p2, k2) = passed (not (ltb now t.grant.expires_at)) grant_expired _ k1 in
    let (p3, k3) =
      passed (not (bytes_equal (value_of h.id t.grant.identities) (host_digest encoders h)))
        identity_changed _ k2 in
    let (p4, k4) = passed (not (is_known r.operation)) unknown_operation _ k3 in
    let (p5, k5) = passed (has_byte 0 r.resource || has_byte 0 r.command) null_byte _ k4 in
    let (p6, k6) = passed (on_path r.operation && not (good_path r.resource)) bad_path _ k5 in
    (
      record {
        same_task = bytes_equal→eq t.id r.task_id (ground arith);
        host_granted = ground arith;
        fresh = ground arith;
        identity =
            bytes_equal→eq (value_of h.id t.grant.identities) (host_digest encoders h)
              (ground arith);
        known = ground arith;
        no_null = p5;
        path = ground arith;
      },
      k6,
    )

evaluate_upload-false : (r : Request) → evaluate_upload r ≢ ok true
unfolding evaluate_upload
evaluate_upload-false r h =
    let (p1, k1) = passed (not (validate_path r.local_path)) bad_local_path _ h in
    let (p2, k2) = passed (not (has_length 32 (hex_decode r.source_hash))) bad_hash _ k1 in
    let (p3, k3) =
      passed
        (not (bytes_equal r.upload_mode [])
          && not (is "new" r.upload_mode)
          && not (is "replace" r.upload_mode)
          && not (is "resume" r.upload_mode))
        bad_mode _ k2 in
    cc

permission :
    (encoders : Encoders) (t : Task) (h : Host) (r : Request) (now : ℕ)
    → InOrder encoders t h r now
    → (if is "upload_local" r.operation then evaluate_upload r else ok (covered t.grant r))
      ≡ ok true
    → Permitted encoders t h r now
unfolding covered
permission encoders t h r now order k = elim (Bool-cases (is "upload_local" r.operation)) [
  | inl u ↦ absurd (evaluate_upload-false r (rw u at k))
  | inr nu ↦
      let c = rw nu at k in
      record {
        in_order = order;
        no_upload = nu;
        not_asking = ground arith;
        operation_granted = ground arith;
        resource_granted = ground arith;
      }
]

equal_true : (a b : Bytes) → a ≡ b → bytes_equal a b ≡ true
equal_true a b e = rw e (bytes_equal_refl b)

granted :
    (encoders : Encoders) (t : Task) (h : Host) (r : Request) (now : ℕ)
    → Permitted encoders t h r now
    → evaluate encoders t h r now ≡ ok true
unfolding evaluate covered
granted encoders t h r now p =
    let o = p.in_order in
    let late : ltb now t.grant.expires_at ≡ true = let f = o.fresh in ground arith in
    let path : (on_path r.operation && not (good_path r.resource)) ≡ false =
      let f = o.path in ground arith in
    rw
      (
        equal_true t.id r.task_id o.same_task,
        o.host_granted,
        late,
        equal_true (value_of h.id t.grant.identities) (host_digest encoders h) o.identity,
        o.known,
        o.no_null,
        path,
        p.no_upload,
        p.not_asking,
        p.operation_granted,
      )
      (ground arith)

-- `Evaluate` permits a request without asking if and only if the task is the request's, the host is
-- granted, the grant has not expired, the host is as it was when the grant was given, the operation is
-- known and granted and neither an upload nor one that always asks, what it is about is granted where
-- that matters, no argument has a null byte and a path is canonical.
pub evaluate_iff :
    (encoders : Encoders) (t : Task) (h : Host) (r : Request) (now : ℕ)
    → (evaluate encoders t h r now ≡ ok true) ↔ Permitted encoders t h r now
evaluate_iff encoders t h r now = (
  (λ k.
      let (order, rest) = evaluate-InOrder encoders t h r now true k in
      permission encoders t h r now order rest),
  granted encoders t h r now,
)

-- A path on a server that a request names, if `Evaluate` answers without an error: proper elements
-- joined by slashes, one at least.
pub evaluate_path :
    (encoders : Encoders) (t : Task) (h : Host) (r : Request) (now : ℕ) (answer : Bool)
    → evaluate encoders t h r now ≡ ok answer
    → on_path r.operation ≡ true
    → (names : List Bytes) × (All Proper names × ((names ≢ []) × (r.resource ≡ b'/' ∷ join names)))
unfolding good_path
evaluate_path encoders t h r now answer k o =
    let path = (evaluate-InOrder encoders t h r now answer k).0.path in
    let same : bytes_equal (clean r.resource) r.resource ≡ true = ground arith in
    let long : bytes_equal r.resource (codes "/") ≡ false = ground arith in
    let e : r.resource ≡ b'/' ∷ join (clean_elements r.resource) =
      unfold clean in sym (bytes_equal→eq (clean r.resource) r.resource same) in
    (
      clean_elements r.resource,
      (
        clean_elements-Proper r.resource,
        (
          (λ none_left.
              let slash : r.resource ≡ codes "/" = e ∙ rw none_left (unfold join in refl) in
              absurd (false≢true (sym long ∙ equal_true r.resource (codes "/") slash))),
          e,
        ),
      ),
    )
