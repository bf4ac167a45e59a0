-- ===== src/Agent/Service/Invariants.antt =====
-- The calls that go on with a task or make a new one keep every invariant.
use mathlib.Core.Path.{subst}
use nex_shell.Prelude.{
  ◌≡◌, refl, sym, Bool, false, not, ◌||◌, Option, none, some, List, [], ◌∷◌, if◌then◌else◌, Bytes,
  codes, bytes_equal, bytes_equal_refl, pure, ◌>>◌, Hoare, Hoare-pure, Hoare-fail, Hoare-if,
  Hoare-bind, Hoare-gets, Hoare-before, Hoare-after,
}
use nex_shell.Agent.Paths.{validate_path}
use nex_shell.Agent.Policy.{is}
use nex_shell.Agent.References.{resolve_reference}
use nex_shell.Agent.Service.{
  Run, store_failed, stopping, grant_expired, unknown_result, not_this_task, revoked, bad_goal,
  bad_root, bad_file, Env, stored, is_running, find_run,
}
use nex_shell.Agent.Service.Control.{
  decision_text, keep_update, submit_to, submit, any_open, resume_input, renewed, resume,
  put_approval, is_current, decided_as, decision_input, decide, real_paths, put_attachment,
  put_attachments, submit_paths, submit_files,
}
use nex_shell.Agent.Service.Create.{canonical_roots, new_task, new_conversation}
use nex_shell.Agent.Service.Frames.{
  View, Still, Still-Hoare, Still-bind, Still-pure, Still-guard, Still-statement, Still-gets,
  Still-modify, Still-or_error, Still-load_task, Still-results, Still-identify, Still-event,
  load_task-Hoare, put_task-Hoare,
}
use nex_shell.Agent.Service.Begin.{Predicate, With, still}
use nex_shell.Agent.Service.Keeps.{Invariant, Keeps, start-Keeps}
use nex_shell.Agent.Service.Start.{runtime_version}
use nex_shell.Agent.Types.{Task, Approval, member}
use nex_shell.Store.{put_task, no_rows}
use nex_shell.Store.Queries.{find_task, find_task-id}
use nex_shell.Agent.Service.Stopping.{find_run-none, on_run-Keeps}

Still-put_approval : (key : Bytes) (a : Approval) → Still (put_approval key a)
unfolding put_approval
Still-put_approval key a =
    Still-bind Still-statement
      λ _. Still-modify (λ s. record { tasks = refl; active = refl; closed = refl })

Still-real_paths : (env : Env) (paths seen : List Bytes) → Still (real_paths env paths seen)
unfolding real_paths
Still-real_paths env [] seen = Still-pure []
Still-real_paths env (p ∷ paths) seen =
    Still-bind (Still-or_error bad_file (resolve_reference env.files p)) λ real.
      Still-bind (Still-real_paths env paths (if member real seen then seen else real ∷ seen))
        λ rest. Still-pure _

Still-canonical_roots : (env : Env) (roots : List Bytes) → Still (canonical_roots env roots)
unfolding canonical_roots
Still-canonical_roots env [] = Still-pure []
Still-canonical_roots env (p ∷ roots) = Still-bind (Still-guard (validate_path p) bad_root) λ _.
    Still-bind (Still-or_error bad_root (env.files.eval_symlinks p)) λ real.
      Still-bind (Still-guard (env.is_dir real) bad_root)
        λ _. Still-bind (Still-canonical_roots env roots) λ out. Still-pure (real ∷ out)

Still-put_attachments :
    (env : Env) (id grant : Bytes) (paths : List Bytes) → Still (put_attachments env id grant paths)
unfolding put_attachments put_attachment
Still-put_attachments env id grant [] = Still-pure tt
Still-put_attachments env id grant (p ∷ paths) =
    Still-bind
      (Still-bind Still-statement
        λ _. Still-modify (λ s. record { tasks = refl; active = refl; closed = refl }))
      λ _. Still-put_attachments env id grant paths

module _ (Q : Predicate) (inv : Invariant Q) (env : Env) where
  submit_to-Keeps :
      (id text : Bytes) (o : Option Run)
      → Hoare
          (View (With Q (λ tasks active closed. find_run id active ≡ o)))
          (submit_to env id text o)
          (λ _. View Q)
          (View Q)
  unfolding submit_to keep_update
  submit_to-Keeps id text (some r) =
      Hoare-before {P' = View Q} (λ s q. q.0)
        (Hoare-if env.accepts (λ _. on_run-Keeps Q inv id _ (λ r. refl))
          (λ _. Hoare-fail stopping (λ s q. q)))
  submit_to-Keeps id text none =
      Hoare-bind
        (Hoare-after (λ t s q. q) (λ s q. q.0)
          (load_task-Hoare (With Q (λ tasks active closed. find_run id active ≡ none)) id))
        λ t.
          Hoare-bind
            (Hoare-if (is "awaiting_approval" t.status || is "interrupted" t.status)
              (λ _.
                Hoare-before
                  {P' = View (With Q (λ tasks active closed. is_running t.id active ≡ false))}
                  (λ s q.
                    let same = find_task-id id s.db.tasks t q.1 in
                    (q.0.0, rw same (find_run-none id s.active q.0.1)))
                  (Hoare-after (λ a s q. q) (λ s q. q.0)
                    (put_task-Hoare (With Q (λ tasks active closed. is_running t.id active ≡ false))
                      Q _ (λ tasks active closed q. inv.puts _ tasks active closed q.0 q.1))))
              (λ _. Hoare-pure tt (λ s q. q.0.0)))
            λ _. start-Keeps Q inv env id _

  pub submit-Keeps : (id text : Bytes) → Keeps Q (submit env id text)
  unfolding submit
  submit-Keeps id text = Hoare-gets (λ s. find_run id s.active) (submit_to-Keeps id text)

  pub resume-Keeps : (id : Bytes) → Keeps Q (resume env id)
  unfolding resume
  resume-Keeps id = Hoare-bind (load_task-Hoare Q id) λ t.
      let P : Predicate = λ tasks active closed. find_task id tasks ≡ some t in
      Hoare-bind (still Q P (Still-results id)) λ list.
        Hoare-bind (still Q P (Still-guard (not (any_open list)) unknown_result)) λ _.
          Hoare-bind (still Q P (Still-identify env t.grant.host_ids t.grant.identities))
            λ identities.
              Hoare-bind
                (Hoare-after (λ a s q. q) (λ s q. q.0)
                  (put_task-Hoare (With Q P) Q (renewed env identities t) λ tasks active closed q.
                    let same = find_task-id id tasks t q.1 in
                    inv.renews t (renewed env identities t) tasks active closed q.0
                      (subst (λ k. find_task k tasks ≡ some t) (sym same) q.1) refl
                      (λ v. rw (v, bytes_equal_refl runtime_version) refl)))
                λ _. start-Keeps Q inv env id resume_input

  pub decide-Keeps : (id approval : Bytes) (accept : Bool) → Keeps Q (decide env id approval accept)
  unfolding decide
  decide-Keeps id approval accept = Hoare-bind (Still-Hoare Q Still-statement) λ _.
      Hoare-bind (Still-Hoare Q (Still-gets (λ s. s.approvals approval))) λ found.
        Hoare-bind (Still-Hoare Q (Still-or_error (store_failed no_rows) found)) λ a.
          Hoare-bind (Still-Hoare Q (Still-guard (bytes_equal a.request.task_id id) not_this_task))
            λ _. Hoare-bind (Still-Hoare Q (Still-load_task id)) λ t.
              Hoare-bind (Still-Hoare Q (Still-guard (is_current env t a) revoked)) λ _.
                Hoare-bind (Still-Hoare Q (Still-put_approval approval (decided_as accept a))) λ _.
                  Hoare-bind
                    (Still-Hoare Q
                      (Still-event id (codes "approval_decision") (decision_text approval accept)))
                    λ _. start-Keeps Q inv env id (decision_input approval)

  pub submit_files-Keeps :
      (id text : Bytes) (paths : List Bytes) → Keeps Q (submit_files env id text paths)
  unfolding submit_files submit_paths
  submit_files-Keeps id text [] = submit-Keeps id text
  submit_files-Keeps id text (p ∷ paths) = Hoare-bind (Still-Hoare Q (Still-load_task id)) λ t.
      Hoare-bind (Still-Hoare Q (Still-guard _ grant_expired)) λ _.
        Hoare-bind (Still-Hoare Q (Still-real_paths env (p ∷ paths) [])) λ inputs.
          Hoare-bind (Still-Hoare Q (Still-put_attachments env id t.grant.id inputs))
            λ _. submit-Keeps id _

  -- the last steps of `NewTask` and `NewConversation`
  create-Keeps :
      (t : Task)
      → Hoare
          (View (With Q (λ tasks active closed. is_running t.id active ≡ false)))
          (do stored (put_task t); pure t)
          (λ _. View Q)
          (View Q)
  create-Keeps t =
      Hoare-bind
        (Hoare-after (λ a s q. q) (λ s q. q.0)
          (put_task-Hoare (With Q (λ tasks active closed. is_running t.id active ≡ false)) Q t
            (λ tasks active closed q. inv.puts t tasks active closed q.0 q.1)))
        λ _. Hoare-pure t (λ s q. q)

  abbrev New : Predicate
  New = With Q (λ tasks active closed. is_running env.fresh_id active ≡ false)

  pub new_task-Keeps :
      (goal profile : Bytes) (hosts ops resources roots : List Bytes)
      → Hoare
          (View New)
          (new_task env goal profile hosts ops resources roots)
          (λ _. View Q)
          (View Q)
  unfolding new_task
  new_task-Keeps goal profile hosts ops resources roots =
      Hoare-bind (still Q _ (Still-guard _ bad_goal)) λ _.
        Hoare-bind (still Q _ (Still-canonical_roots env roots))
          λ out. Hoare-bind (still Q _ (Still-identify env hosts [])) λ identities. create-Keeps _

  pub new_conversation-Keeps :
      (profile : Bytes) (hosts roots : List Bytes)
      → Hoare (View New) (new_conversation env profile hosts roots) (λ _. View Q) (View Q)
  unfolding new_conversation
  new_conversation-Keeps profile hosts roots = Hoare-bind (still Q _ Still-statement) λ _.
      Hoare-bind (still Q _ (Still-guard (env.profiles profile) (store_failed no_rows))) λ _.
        Hoare-bind (still Q _ (Still-canonical_roots env roots))
          λ out. Hoare-bind (still Q _ (Still-identify env hosts [])) λ identities. create-Keeps _
