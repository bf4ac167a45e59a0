-- ===== src/Agent/Service/Decisions.antt =====
-- An approval is decided only under the grant that it was asked for.
use mathlib.Core.Path.{subst}
use nex_shell.Prelude.{
  ◌<◌, ◌≡◌, ◌⊎◌, refl, sym, ◌∙◌, ap, Bool, true, Option, none, some, arith, if◌then◌else◌, inl, inr,
  Bytes, codes, bytes_equal, bytes_equal→eq, Result, ok, err, gets, Post, Hoare, Hoare-bind,
  Hoare-if, Hoare-pure, Hoare-fail,
}
use nex_shell.Agent.Service.{
  Service, Trouble, store_failed, not_this_task, revoked, Env, Call, with_db, stored, guard,
  or_no_rows,
}
use nex_shell.Agent.Service.Control.{
  put_approval, is_current, decided_as, decision_input, decision_text, decide,
}
use nex_shell.Agent.Service.Frames.{Still, Still-statement, Still-load_task}
use nex_shell.Agent.Types.{Task, Approval}
use nex_shell.Store.{Fault, Db, statement, no_rows}
use nex_shell.Store.Queries.{find_task, load_task, load_task-found}
use nex_shell.Agent.Service.Fixed.{Fixed, Fixed-stored, Fixed-start, Fixed-event}

-- The decision that was recorded, and what it rests on.
pub record Decided (env : Env) (id approval : Bytes) (accept : Bool) (s : Service)
    (approvals : Bytes → Option Approval) : Type 0 where
  pub asked : Approval
  pub task : Task
  pub was_asked : s.approvals approval ≡ some asked
  pub of_task : asked.request.task_id ≡ id
  pub was_stored : find_task id s.db.tasks ≡ some task
  pub same_grant : asked.grant_id ≡ task.grant.id
  pub in_time : env.now < task.grant.expires_at
  pub recorded : approvals ≡ λ k.
      if bytes_equal k approval then some (decided_as accept asked) else s.approvals k

module _ (env : Env) (id approval : Bytes) (accept : Bool) (s : Service) where
  Outcome : Service → Type 0
  Outcome t = (t.approvals ≡ s.approvals) ⊎ Decided env id approval accept s t.approvals

  -- what the steps know of the state before the decision is recorded
  abbrev Before : Type 0 → Service → Type 0
  Before P t = ((t.approvals ≡ s.approvals) × (t.db.tasks ≡ s.db.tasks)) × P

  -- a step that changes neither
  unchanged-Hoare :
      {A : Type 0} {m : Call A} (P : Type 0)
      → Still m
      → Fixed m
      → Hoare (Before P) m (λ _. Before P) Outcome
  unfolding Outcome
  unchanged-Hoare {A} {m} P still_m fixed = record {
    at = λ t p. either (m t) (fixed.at t ∙ p.0.0) ((still_m.at t).tasks ∙ p.0.1) p.1;
  }
    where
      either :
          {A : Type 0} (x : Result Trouble A × Service)
          → x.1.approvals ≡ s.approvals
          → x.1.db.tasks ≡ s.db.tasks
          → P
          → Post (λ _. Before P) Outcome x
      either (ok a, t) p q r = ((p, q), r)
      either (err e, t) p q r = inl p

  after-Hoare : {A : Type 0} {m : Call A} → Fixed m → Hoare Outcome m (λ _. Outcome) Outcome
  unfolding Outcome
  after-Hoare {A} {m} fixed = record { at = λ t p. either (m t) (fixed.at t) p }
    where
      either :
          {A : Type 0} {approvals : Bytes → Option Approval} (x : Result Trouble A × Service)
          → x.1.approvals ≡ approvals
          → (approvals ≡ s.approvals) ⊎ Decided env id approval accept s approvals
          → Post (λ _. Outcome) Outcome x
      either (ok a, t) e p = rw e p
      either (err b, t) e p = rw e p

  -- the guard's test, for the steps behind it
  tested-Hoare :
      (P : Type 0) (b : Bool) (e : Trouble)
      → Hoare (Before P) (guard b e) (λ _. Before (P × (b ≡ true))) Outcome
  unfolding Outcome
  tested-Hoare P b e =
      Hoare-if b (λ h. Hoare-pure tt (λ t p. (p.0, (p.1, h))))
        (λ h. Hoare-fail e (λ t p. inl p.0.0))

  found-Hoare :
      (o : Option Approval)
      → Hoare
          (Before (s.approvals approval ≡ o))
          (or_no_rows o)
          (λ a. Before (s.approvals approval ≡ some a))
          Outcome
  unfolding Outcome
  found-Hoare none = Hoare-fail (store_failed no_rows) (λ t p. inl p.0.0)
  found-Hoare (some a) = Hoare-pure a (λ t p. p)

  loaded-Hoare :
      (P : Type 0)
      → Hoare
          (Before P)
          (stored (load_task id))
          (λ t. Before (P × (find_task id s.db.tasks ≡ some t)))
          Outcome
  unfolding Outcome
  loaded-Hoare P = record {
    at = λ u p.
        either u (load_task id u.db) p.0.0 (((Still-load_task id).at u).tasks ∙ p.0.1)
          (load_task-found id u.db) p.1;
  }
    where
      either :
          (u : Service) (x : Result Fault Task × Db)
          → u.approvals ≡ s.approvals
          → (with_db x u).1.db.tasks ≡ s.db.tasks
          → ((t : Task) → x.0 ≡ ok t → find_task id x.1.tasks ≡ some t)
          → P
          → Post (λ t. Before (P × (find_task id s.db.tasks ≡ some t))) Outcome (with_db x u)
      either u (ok t, db) a b f p =
          ((a, b), (p, subst (λ tasks. find_task id tasks ≡ some t) b (f t refl)))
      either u (err e, db) a b f p = inl a

  put-Hoare :
      (a : Approval) (t : Task)
      → s.approvals approval ≡ some a
      → a.request.task_id ≡ id
      → find_task id s.db.tasks ≡ some t
      → is_current env t a ≡ true
      → Hoare
          (Before (Unit {0}))
          (put_approval approval (decided_as accept a))
          (λ _. Outcome)
          Outcome
  unfolding Outcome put_approval is_current
  put-Hoare a t asked of stored_task current =
      Hoare-bind (unchanged-Hoare (Unit {0}) Still-statement (Fixed-stored statement)) λ _. record {
        at = λ u p. inr (record {
          asked = a;
          task = t;
          was_asked = asked;
          of_task = of;
          was_stored = stored_task;
          same_grant = bytes_equal→eq a.grant_id t.grant.id (ground arith);
          in_time = ground arith;
          recorded =
              ap (λ f. λ k. if bytes_equal k approval then some (decided_as accept a) else f k)
                p.0.0;
        });
      }

  decide-Outcome : Hoare (Before (Unit {0})) (decide env id approval accept) (λ _. Outcome) Outcome
  unfolding decide
  decide-Outcome =
      Hoare-bind (unchanged-Hoare (Unit {0}) Still-statement (Fixed-stored statement)) λ _.
        Hoare-bind approval_read λ o. Hoare-bind (found-Hoare o) λ a.
          Hoare-bind
            (tested-Hoare (s.approvals approval ≡ some a) (bytes_equal a.request.task_id id)
              not_this_task)
            λ _. Hoare-bind (loaded-Hoare _) λ t.
              Hoare-bind (tested-Hoare _ (is_current env t a) revoked) λ _.
                Hoare-bind (split a t) λ _.
                  Hoare-bind
                    (after-Hoare
                      (Fixed-event id (codes "approval_decision") (decision_text approval accept)))
                    λ _. after-Hoare (Fixed-start env id (decision_input approval))
    where
      approval_read :
          Hoare {E = Trouble}
            (Before (Unit {0}))
            (gets (λ u. u.approvals approval))
            (λ o. Before (s.approvals approval ≡ o))
            Outcome
      approval_read = record { at = λ u p. (p.0, sym (ap (λ f. f approval) p.0.0)) }

      split :
          (a : Approval) (t : Task)
          → Hoare
              (Before (
                (((s.approvals approval ≡ some a) × (bytes_equal a.request.task_id id ≡ true))
                  × (find_task id s.db.tasks ≡ some t))
                × (is_current env t a ≡ true)))
              (put_approval approval (decided_as accept a))
              (λ _. Outcome)
              Outcome
      split a t = record {
        at = λ u p.
            let q = p.1 in
            (put-Hoare a t q.0.0.0 (bytes_equal→eq a.request.task_id id q.0.0.1) q.0.1 q.1).at u
              (p.0, tt);
      }

  -- `Decide` leaves every recorded approval as it was, or it records one decision: on an approval that was
  -- asked for by this task, under the grant that the task still has and that is still good.
  pub decide-Decided :
      ((decide env id approval accept s).1.approvals ≡ s.approvals)
      ⊎ Decided env id approval accept s (decide env id approval accept s).1.approvals
  unfolding Outcome
  decide-Decided = either (decide env id approval accept s) (decide-Outcome.at s ((refl, refl), tt))
    where
      either :
          (x : Result Trouble (Unit {0}) × Service)
          → Post (λ _. Outcome) Outcome x
          → (x.1.approvals ≡ s.approvals) ⊎ Decided env id approval accept s x.1.approvals
      either (ok a, t) p = p
      either (err e, t) p = p
