-- ===== src/Agent/Gate/Authorized.antt =====
-- Nothing is executed without a permission of the policy or an approval of the user.
use mathlib.Core.Bool.{false≢true}
use mathlib.Core.Path.{subst}
use nex_shell.Prelude.{
  ◌≡◌, ◌⊎◌, inl, inr, refl, sym, ◌∙◌, ap, Bool, true, false, not, ◌&&◌, Option, none, some, arith,
  if◌then◌else◌, Bytes, bytes_equal, bytes_equal→eq, codes, Bool-cases, Result, ok, err,
}
use nex_shell.Agent.Gate.{
  Lookup, found, missing, broken, Attachment, World, canonical_request, mutates, known_results,
  attached, runs, Stop, correct, fail, or_attached, as_stop, allowed_remote, allowed, by_approval,
  decided, of_canonical, execute_tool,
}
use nex_shell.Agent.Policy.{
  Refusal, is, always_asks, evaluate, approved_for, is_local, evaluate_local,
}
use nex_shell.Agent.Policy.Local.{LocalInOrder, evaluate_local-InOrder}
use nex_shell.Agent.Policy.Sound.{InOrder, Permitted, evaluate-InOrder, evaluate_iff}
use nex_shell.Agent.Types.{Host, Task, Request, Approval, Encoders, request_digest}

-- The user has approved this very request, under the grant that the task has now.
pub record Approved (encoders : Encoders) (w : World) (t : Task) (r : Request) : Type 0 where
  pub approval : Approval
  pub stored : w.approvals (request_digest encoders r) ≡ found approval
  pub valid : approved_for encoders approval t r ≡ true

-- an operation on a server that may run
pub record Remote (encoders : Encoders) (w : World) (t : Task) (r : Request) : Type 0 where
  pub host : Host
  pub stored : w.hosts r.host_id ≡ found host
  pub in_order : InOrder encoders t host r w.now
  pub settled : (mutates r.operation && not (known_results w.results)) ≡ false
  pub reason : Permitted encoders t host r w.now ⊎ Approved encoders w t r

-- an operation on this machine that may run
pub record Local (encoders : Encoders) (w : World) (t : Task) (r : Request) : Type 0 where
  pub in_order : LocalInOrder t r w.now
  pub reason :
      (evaluate_local t r w.now ≡ ok true)
      ⊎ ((attached (w.attachments r.local_path) t r.local_path ≡ some true)
          ⊎ Approved encoders w t r)

by_approval-runs :
    (encoders : Encoders) (t : Task) (r r' : Request) (a : Lookup Approval)
    → by_approval encoders t r a ≡ runs r'
    → (approval : Approval) × ((a ≡ found approval)
        × ((approved_for encoders approval t r ≡ true) × (r ≡ r')))
unfolding by_approval
by_approval-runs encoders t r r' missing h = cc
by_approval-runs encoders t r r' broken h = cc
by_approval-runs encoders t r r' (found a) h =
    elim (Bool-cases (a.decided && bytes_equal a.grant_id t.grant.id && not a.approved)) [
      | inl n ↦ let x = rw n at h in cc
      | inr n ↦ elim (Bool-cases (approved_for encoders a t r)) [
        | inl v ↦ let x = rw (n, v) at h in (a, (refl, (v, cc)))
        | inr v ↦ let x = rw (n, v) at h in cc
      ]
    ]

decided-runs :
    (encoders : Encoders) (w : World) (t : Task) (r r' : Request) (x : Result Stop Bool)
    → decided encoders w t r x ≡ runs r'
    → (r ≡ r') × ((x ≡ ok true) ⊎ ((x ≡ ok false) × Approved encoders w t r))
unfolding decided
decided-runs encoders w t r r' (err correct) h = cc
decided-runs encoders w t r r' (err fail) h = cc
decided-runs encoders w t r r' (ok true) h = (cc, inl refl)
decided-runs encoders w t r r' (ok false) h =
    let (a, (s, (v, e))) =
      by_approval-runs encoders t r r' (w.approvals (request_digest encoders r)) h in
    (e, inr (refl, record { approval = a; stored = s; valid = v }))

attached-true :
    (o : Option Bool)
    → (elim o as (λ _. Result Stop Bool) [ none ↦ err correct | some b ↦ ok b ]) ≡ ok true
    → o ≡ some true
attached-true none h = cc
attached-true (some b) h = cc

-- `evaluate_local` and an attachment
or_attached-Local :
    (encoders : Encoders) (w : World) (t : Task) (r : Request) (x : Result Refusal Bool)
    (a : Lookup Attachment)
    → x ≡ evaluate_local t r w.now
    → a ≡ w.attachments r.local_path
    → (or_attached a t r x ≡ ok true) ⊎ ((or_attached a t r x ≡ ok false) × Approved encoders w t r)
    → Local encoders w t r
unfolding or_attached
or_attached-Local encoders w t r (err e) a ex ea (inl h) = cc
or_attached-Local encoders w t r (err e) a ex ea (inr (h, v)) = cc
or_attached-Local encoders w t r (ok true) a ex ea h = record {
  in_order = (evaluate_local-InOrder t r w.now true (sym ex)).0;
  reason = inl (sym ex);
}
or_attached-Local encoders w t r (ok false) a ex ea (inl h) = record {
  in_order = (evaluate_local-InOrder t r w.now false (sym ex)).0;
  reason = inr (inl (rw (← ea) (attached-true (attached a t r.local_path) h)));
}
or_attached-Local encoders w t r (ok false) a ex ea (inr (h, v)) = record {
  in_order = (evaluate_local-InOrder t r w.now false (sym ex)).0;
  reason = inr (inr v);
}

settled_ok :
    (s : Bool) (x : Result Refusal Bool) {b : Bool}
    → (if s then err fail else as_stop x) ≡ ok b
    → (s ≡ false) × (x ≡ ok b)
unfolding as_stop
settled_ok true x h = cc
settled_ok false (err e) h = cc
settled_ok false (ok a) h = (refl, cc)

allowed_remote-Remote :
    (encoders : Encoders) (w : World) (t : Task) (r : Request) (x : Lookup Host)
    → x ≡ w.hosts r.host_id
    → (allowed_remote encoders w t r x ≡ ok true)
      ⊎ ((allowed_remote encoders w t r x ≡ ok false) × Approved encoders w t r)
    → Remote encoders w t r
unfolding allowed_remote
allowed_remote-Remote encoders w t r missing e (inl h) = cc
allowed_remote-Remote encoders w t r missing e (inr (h, v)) = cc
allowed_remote-Remote encoders w t r broken e (inl h) = cc
allowed_remote-Remote encoders w t r broken e (inr (h, v)) = cc
allowed_remote-Remote encoders w t r (found host) e (inl k) =
    let (s, ev) =
      settled_ok (mutates r.operation && not (known_results w.results))
        (evaluate encoders t host r w.now) k in
    record {
      host = host;
      stored = sym e;
      in_order = (evaluate-InOrder encoders t host r w.now true ev).0;
      settled = s;
      reason = inl ((evaluate_iff encoders t host r w.now).0 ev);
    }
allowed_remote-Remote encoders w t r (found host) e (inr (k, v)) =
    let (s, ev) =
      settled_ok (mutates r.operation && not (known_results w.results))
        (evaluate encoders t host r w.now) k in
    record {
      host = host;
      stored = sym e;
      in_order = (evaluate-InOrder encoders t host r w.now false ev).0;
      settled = s;
      reason = inr v;
    }

allowed-Authorized :
    (encoders : Encoders) (w : World) (t : Task) (r : Request)
    → (allowed encoders w t r ≡ ok true)
      ⊎ ((allowed encoders w t r ≡ ok false) × Approved encoders w t r)
    → Local encoders w t r ⊎ Remote encoders w t r
unfolding allowed
allowed-Authorized encoders w t r h = elim (Bool-cases (is_local r.operation)) [
  | inl l ↦ inl (
      or_attached-Local encoders w t r (evaluate_local t r w.now) (w.attachments r.local_path) refl
        refl (rw l at h))
  | inr l ↦ inr (allowed_remote-Remote encoders w t r (w.hosts r.host_id) refl (rw l at h))
]

-- a request, or none, on the way to the decision
canonical-Authorized :
    (encoders : Encoders) (w : World) (t : Task) (r' : Request) (o : Option Request)
    → of_canonical encoders w t o ≡ runs r'
    → (o ≡ some r') × (Local encoders w t r' ⊎ Remote encoders w t r')
unfolding of_canonical
canonical-Authorized encoders w t r' none h = cc
canonical-Authorized encoders w t r' (some r) h =
    let (e, reason) = decided-runs encoders w t r r' (allowed encoders w t r) h in
    (
      ap some e,
      subst (λ q. Local encoders w t q ⊎ Remote encoders w t q) e
          (allowed-Authorized encoders w t r reason),
    )

-- A request is executed only with its local path made canonical, and only if it is one of two things: an
-- operation on this machine, in order, that the granted directories, an attachment under the current
-- grant or an approval of the user covers; or an operation on a stored server, in order, that the
-- policy permits or the user has approved, and no change while the outcome of an earlier operation is
-- unknown. An approval counts only for this very request and under the current grant.
pub execute_tool_authorized :
    (encoders : Encoders) (w : World) (t : Task) (r r' : Request)
    → execute_tool encoders w t r ≡ runs r'
    → (canonical_request w.eval_symlinks r ≡ some r')
      × (Local encoders w t r' ⊎ Remote encoders w t r')
unfolding execute_tool
execute_tool_authorized encoders w t r r' h =
    canonical-Authorized encoders w t r' (canonical_request w.eval_symlinks r) h

asks_no_local : (op : Bytes) → is_local op ≡ true → always_asks op ≡ false
unfolding is_local always_asks bytes_equal
asks_no_local op h = elim (Bool-cases (is "local_stat" op)) [
  | inl s ↦ rw (bytes_equal→eq op (codes "local_stat") s) refl
  | inr s ↦ elim (Bool-cases (is "local_list" op)) [
    | inl l ↦ rw (bytes_equal→eq op (codes "local_list") l) refl
    | inr l ↦ rw (bytes_equal→eq op (codes "local_read") (ground arith)) refl
  ]
]

always_asks-Approved :
    (encoders : Encoders) (w : World) (t : Task) (r : Request)
    → always_asks r.operation ≡ true
    → Local encoders w t r ⊎ Remote encoders w t r
    → Approved encoders w t r
always_asks-Approved encoders w t r a (inl l) =
    absurd (false≢true (sym (asks_no_local r.operation l.in_order.local_operation) ∙ a))
always_asks-Approved encoders w t r a (inr m) = elim m.reason [
  | inl p ↦ absurd (false≢true (sym p.not_asking ∙ a))
  | inr v ↦ v
]

-- A shell command and input to a terminal are executed only if the user has approved this very request
-- under the current grant, whatever the grant permits.
pub execute_tool-Approved :
    (encoders : Encoders) (w : World) (t : Task) (r r' : Request)
    → execute_tool encoders w t r ≡ runs r'
    → always_asks r'.operation ≡ true
    → Approved encoders w t r'
execute_tool-Approved encoders w t r r' h a =
    always_asks-Approved encoders w t r' a (execute_tool_authorized encoders w t r r' h).1
