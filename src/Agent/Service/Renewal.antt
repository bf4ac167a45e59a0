-- ===== src/Agent/Service/Renewal.antt =====
-- `Resume` puts a task under a new grant, under which nothing that was approved before counts.
use mathlib.Core.Path.{subst}
use nex_shell.Prelude.{
  ◌+◌, ◌≡◌, ◌≢◌, refl, sym, ◌∙◌, false, not, some, List, arith, Bool-cases, inl, inr, Bytes, codes,
  bytes_equal, bytes_equal→eq, Result, ok, err, Post, Hoare, Hoare-bind, Hoare-after,
}
use nex_shell.Agent.Policy.{approved_for}
use nex_shell.Agent.Service.{Service, Trouble, Env, unknown_result, eight_hours}
use nex_shell.Agent.Service.Begin.{Predicate, With, still, start-Hoare}
use nex_shell.Agent.Service.Control.{any_open, resume_input, renewed, resume}
use nex_shell.Agent.Service.Frames.{
  View, Still-guard, Still-results, Still-identify, load_task-Hoare, put_task-Hoare,
}
use nex_shell.Agent.Service.Start.{started, start}
use nex_shell.Agent.Types.{Task, Request, Approval, Encoders}
use nex_shell.Store.{put_in}
use nex_shell.Store.Queries.{find_task, find_task-id, find_task-put_in}

-- The task runs under a new grant of eight hours, of the same extent as the old one.
pub record Renewed (env : Env) (old new : Task) : Type 0 where
  pub running : new.status ≡ codes "running"
  pub fresh : new.grant.id ≡ env.fresh_grant
  pub term : new.grant.expires_at ≡ env.now + eight_hours
  pub hosts : new.grant.host_ids ≡ old.grant.host_ids
  pub operations : new.grant.operations ≡ old.grant.operations
  pub resources : new.grant.resources ≡ old.grant.resources
  pub local_roots : new.grant.local_roots ≡ old.grant.local_roots

-- the stored task comes from one that was stored in `tasks`
abbrev Comes : Env → Bytes → List Task → Predicate
Comes env id old_tasks tasks active closed =
    (old : Task) × (new : Task) × ((find_task id old_tasks ≡ some old)
      × ((find_task id tasks ≡ some new) × Renewed env old new))

renewed-Renewed :
    (env : Env) (identities : List (Bytes × Bytes)) (t : Task)
    → Renewed env t (started (renewed env identities t))
renewed-Renewed env identities t = record {
  running = refl;
  fresh = refl;
  term = refl;
  hosts = refl;
  operations = refl;
  resources = refl;
  local_roots = refl;
}

-- what the steps behind the `Put` know
abbrev Put : Env → Bytes → List Task → Predicate
Put env id old_tasks tasks active closed =
    (old : Task) × (identities : List (Bytes × Bytes)) × ((find_task id old_tasks ≡ some old)
      × (find_task id tasks ≡ some (renewed env identities old)))

module _ (env : Env) (id : Bytes) (s : Service) where
  Anything : Predicate
  Anything tasks active closed = Unit {0}

  start-Comes :
      Hoare
        (View (Put env id s.db.tasks))
        (start env id resume_input)
        (λ _. View (Comes env id s.db.tasks))
        (View Anything)
  start-Comes =
      Hoare-after (λ a s q. q) (λ s q. unfold Anything in tt)
        (start-Hoare (Put env id s.db.tasks) (Comes env id s.db.tasks) env id resume_input
          λ t history tasks active q r.
            let (old, identities, (f, g)) = q in
            let same : t ≡ renewed env identities old = let k = sym r.0.1.0 ∙ g in cc in
            let here : (started t).id ≡ id = find_task-id id tasks t r.0.1.0 in
            (
              old,
              started t,
              (
                f,
                (
                  subst (λ k. find_task k (put_in (started t) tasks) ≡ some (started t)) here
                      (find_task-put_in (started t) tasks),
                  subst (λ u. Renewed env old (started u)) (sym same)
                      (renewed-Renewed env identities old),
                ),
              ),
            ))

  resume-Comes :
      Hoare
        (View (λ tasks active closed. tasks ≡ s.db.tasks))
        (resume env id)
        (λ _. View (Comes env id s.db.tasks))
        (View Anything)
  unfolding resume Anything
  resume-Comes =
      let Q : Predicate = λ tasks active closed. tasks ≡ s.db.tasks in
      Hoare-bind (Hoare-after (λ a s q. q) (λ s q. tt) (load_task-Hoare Q id)) λ t.
        let P : Predicate = λ tasks active closed. find_task id tasks ≡ some t in
        Hoare-bind (Hoare-after (λ a s q. q) (λ s q. tt) (still Q P (Still-results id))) λ list.
          Hoare-bind
            (Hoare-after (λ a s q. q) (λ s q. tt)
              (still Q P (Still-guard (not (any_open list)) unknown_result)))
            λ _.
              Hoare-bind
                (Hoare-after (λ a s q. q) (λ s q. tt)
                  (still Q P (Still-identify env t.grant.host_ids t.grant.identities)))
                λ identities.
                  Hoare-bind
                    (Hoare-after (λ a s q. q) (λ s q. tt)
                      (put_task-Hoare (With Q P) (Put env id s.db.tasks) (renewed env identities t)
                        λ tasks active closed q.
                          let u = renewed env identities t in
                          let here : u.id ≡ id = find_task-id id tasks t q.1 in
                          (
                            t,
                            identities,
                            (
                              subst (λ k. find_task id k ≡ some t) q.0 q.1,
                              subst (λ k. find_task k (put_in u tasks) ≡ some u) here
                                  (find_task-put_in u tasks),
                            ),
                          )))
                    λ _. start-Comes

comes_post :
    (Q F : Service → Type 0) (x : Result Trouble (Unit {0}) × Service)
    → x.0 ≡ ok tt
    → Post (λ _. Q) F x
    → Q x.1
comes_post Q F (ok u, s) h p = p
comes_post Q F (err e, s) h p = cc

-- `Resume`, when it succeeds, leaves the task running under a new grant: it ends eight hours later and covers
-- the hosts, operations, resources and directories of the one before.
pub resume-Renewed :
    (env : Env) (id : Bytes) (s : Service)
    → (resume env id s).0 ≡ ok tt
    → Comes env id s.db.tasks
        (resume env id s).1.db.tasks
        (resume env id s).1.active
        (resume env id s).1.closed
resume-Renewed env id s h =
    comes_post (View (Comes env id s.db.tasks)) (View (Anything env id s)) (resume env id s) h
      ((resume-Comes env id s).at s refl)

-- After a `Resume` that succeeds, an approval under another grant than the new one approves nothing for the
-- task any more.
pub resume_revokes :
    (env : Env) (id : Bytes) (s : Service) (encoders : Encoders) (t : Task) (a : Approval)
    (r : Request)
    → (resume env id s).0 ≡ ok tt
    → find_task id (resume env id s).1.db.tasks ≡ some t
    → a.grant_id ≢ env.fresh_grant
    → approved_for encoders a t r ≡ false
unfolding approved_for
resume_revokes env id s encoders t a r h f other =
    let (old, new, (_, (g, k))) = resume-Renewed env id s h in
    let same : new ≡ t = let e = sym g ∙ f in cc in
    let fresh : t.grant.id ≡ env.fresh_grant =
      subst (λ x. x.grant.id ≡ env.fresh_grant) same k.fresh in
    let differs : bytes_equal a.grant_id t.grant.id ≡ false =
      elim (Bool-cases (bytes_equal a.grant_id t.grant.id)) [
        | inl y ↦ absurd (other (bytes_equal→eq a.grant_id t.grant.id y ∙ fresh))
        | inr n ↦ n
      ] in
    ground (arith, differs)
