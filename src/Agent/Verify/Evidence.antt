-- ===== src/Agent/Verify/Evidence.antt =====
-- What a verification that is accepted rests on.
use mathlib.Core.Path.{subst}
use nex_shell.Prelude.{
  ◌⊎◌, ◌∙◌, passed, ℕ, ◌≡◌, refl, true, false, not, ◌&&◌, Option, none, some, List, [], ◌∷◌, arith,
  ltb, if◌then◌else◌, Bool-cases, inl, inr, Bytes, All, codes, bytes_equal, bytes_equal→eq,
  has_prefix, contains, Result, ok, err,
}
use nex_shell.Agent.Gate.{mutates}
use nex_shell.Agent.Policy.{is}
use nex_shell.Agent.Types.{Task, member}
use nex_shell.Agent.Verify.{
  Verification, Objection, not_operator, not_in_task, unfit, outdated, is_open, find_evidence,
  is_evidence, overtaken, check_evidence, found_evidence, verify_result,
}
use nex_shell.Store.{Execution}

-- the execution is one of the list
pub data Among (x : Execution) : List Execution → Type 0 where
  here : {results : List Execution} → Among x (x ∷ results)
  there : (r : Execution) {results : List Execution} → Among x results → Among x (r ∷ results)

-- The execution that `v` names is a read-only check of this task that succeeded and shows the text, the
-- last one on its host, and nothing in the task is open.
pub record Evidence (t : Task) (results : List Execution) (v : Verification) (x : Execution)
    : Type 0 where
  pub among : Among x results
  pub same : x.id ≡ v.execution_id
  pub host : x.request.host_id ≡ v.host_id
  pub granted : member v.host_id t.grant.host_ids ≡ true
  pub reads : mutates x.request.operation ≡ false
  pub no_terminal : has_prefix (codes "terminal_") x.request.operation ≡ false
  pub succeeded : x.status ≡ codes "succeeded"
  pub shows : contains v.expected_text x.output ≡ true
  pub latest :
      All
        (λ r.
          (bytes_equal r.request.host_id x.request.host_id && ltb x.started_at r.started_at)
          ≡ false)
        results
  pub settled : All (λ r. is_open r.status ≡ false) results

find_evidence-ok :
    (id : Bytes) (results : List Execution) (found out : Option Execution)
    → find_evidence id results found ≡ ok out
    → All (λ r. is_open r.status ≡ false) results
      × ((x : Execution) → out ≡ some x → (found ≡ some x) ⊎ (Among x results × (x.id ≡ id)))
unfolding find_evidence
find_evidence-ok id [] found out h = (tt, λ x e. inl (cc))
find_evidence-ok id (r ∷ results) found out h = elim (Bool-cases (is_open r.status)) [
  | inl o ↦ let k = rw o at h in cc
  | inr c ↦
      let k = rw c at h in
      let ih = find_evidence-ok id results (if bytes_equal r.id id then some r else found) out k in
      (
        (c, ih.0),
        λ x e. elim (ih.1 x e) [
          | inr m ↦ inr (there r m.0, m.1)
          | inl f ↦ elim (Bool-cases (bytes_equal r.id id)) [
            | inl s ↦
                let same : r ≡ x = let g = rw s at f in cc in
                inr (
                  subst (λ y. Among y (r ∷ results)) same here,
                  subst (λ y. y.id ≡ id) same (bytes_equal→eq r.id id s),
                )
            | inr d ↦ inl (rw d at f)
          ]
        ],
      )
]

overtaken-All :
    (x : Execution) (results : List Execution)
    → overtaken x results ≡ false
    → All
        (λ r.
          (bytes_equal r.request.host_id x.request.host_id && ltb x.started_at r.started_at)
          ≡ false)
        results
unfolding overtaken
overtaken-All x [] h = tt
overtaken-All x (r ∷ results) h = (ground arith, overtaken-All x results (ground arith))

check_evidence-Evidence :
    (t : Task) (agent : Bytes) (results : List Execution) (id expected : Bytes) (now : ℕ)
    (found : Option Execution) (v : Verification)
    → All (λ r. is_open r.status ≡ false) results
    → ((x : Execution) → found ≡ some x → Among x results × (x.id ≡ id))
    → check_evidence t agent results id expected now found ≡ ok v
    → ((x : Execution) × Evidence t results v x)
      × (v.execution_id ≡ id)
      × (v.expected_text ≡ expected)
unfolding check_evidence is_evidence
check_evidence-Evidence t agent results id expected now none v s f h = cc
check_evidence-Evidence t agent results id expected now (some x) v s f h =
    let (p1, k1) = passed (not (member x.request.host_id t.grant.host_ids)) not_in_task _ h in
    let (p2, k2) = passed (not (is_evidence expected x)) unfit _ k1 in
    let (p3, k3) = passed (overtaken x results) outdated _ k2 in
    let host : x.request.host_id ≡ v.host_id = cc in
    let text : v.expected_text ≡ expected = cc in
    (
      (
        x,
        record {
          among = (f x refl).0;
          same = (f x refl).1 ∙ (cc);
          host = host;
          granted = rw (← host) (ground arith);
          reads = ground arith;
          no_terminal = ground arith;
          succeeded = bytes_equal→eq x.status (codes "succeeded") (ground arith);
          shows = rw text (ground arith);
          latest = overtaken-All x results p3;
          settled = s;
        },
      ),
      cc,
      text,
    )

-- A verification is accepted from the main agent only, and it names the execution asked for: a successful
-- read-only check on a granted host that shows the expected text, with none started later on that host
-- and no execution of the task still open.
pub verify_result-Evidence :
    (t : Task) (agent : Bytes) (results : List Execution) (id expected : Bytes) (now : ℕ)
    (v : Verification)
    → verify_result t agent results id expected now ≡ ok v
    → (agent ≡ codes "operator")
      × (v.execution_id ≡ id)
      × (v.expected_text ≡ expected)
      × ((x : Execution) × Evidence t results v x)
unfolding verify_result
verify_result-Evidence t agent results id expected now v h =
    let (p, k) = passed (not (is "operator" agent)) not_operator _ h in
    let (e, i, w) = found (find_evidence id results none) refl k in
    (bytes_equal→eq agent (codes "operator") (ground arith), i, w, e)
  where
    found :
        (y : Result Objection (Option Execution))
        → find_evidence id results none ≡ y
        → found_evidence t agent results id expected now y ≡ ok v
        → ((x : Execution) × Evidence t results v x)
          × (v.execution_id ≡ id)
          × (v.expected_text ≡ expected)
    found (err e) q k = cc
    found (ok out) q k =
        let g = find_evidence-ok id results none out q in
        check_evidence-Evidence t agent results id expected now out v g.0
          (λ x e. elim (g.1 x e) [ inl n ↦ cc | inr m ↦ m ]) k
