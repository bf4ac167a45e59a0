-- ===== src/Agent/Service/Begin.antt =====
-- What `start` has tested when it stores the task and adds the run.
use mathlib.Core.Path.{subst}
use nex_shell.Prelude.{
  ◌≡◌, refl, ◌∙◌, Bool, true, false, not, some, List, [], ◌∷◌, ◌++◌, arith, ltb, if◌then◌else◌,
  Bytes, bytes_equal, bytes_equal→eq, modify, ◌>>=◌, ◌>>◌, Hoare, Hoare-pure, Hoare-fail, Hoare-if,
  Hoare-bind, Hoare-gets, Hoare-before, Hoare-after,
}
use nex_shell.Agent.History.{Message, complete_interrupted_tool_calls}
use nex_shell.Agent.Paths.{is_empty}
use nex_shell.Agent.Service.{
  Input, Run, Trouble, store_failed, exiting, still_running, wrong_version, needs_upgrade,
  grant_expired, no_model, no_tools, Env, Call, stored, guard, is_running,
}
use nex_shell.Agent.Service.Frames.{
  View, Still, Still-Hoare, Still-bind, Still-guard, Still-statement, Still-gets, load_task-Hoare,
  put_task-Hoare,
}
use nex_shell.Agent.Service.Start.{
  runtime_version, prepare_version, prepare_model, load_history, was_broken_off, started, new_run,
  start,
}
use nex_shell.Agent.Types.{Task}
use nex_shell.Store.{put_in, put_task, no_rows}
use nex_shell.Store.Queries.{find_task}

abbrev pub Predicate : Type 1
Predicate = List Task → List Run → Bool → Type 0

abbrev pub With : Predicate → (List Task → List Run → Bool → Type 0) → Predicate
With Q P tasks active closed = Q tasks active closed × P tasks active closed

-- a call that changes nothing keeps what more is known
pub still :
    {A : Type 0} {m : Call A} (Q P : Predicate)
    → Still m
    → Hoare (View (With Q P)) m (λ _. View (With Q P)) (View Q)
still Q P h = Hoare-after (λ a s q. q) (λ s q. q.0) (Still-Hoare (With Q P) h)

-- what a guard has tested
pub guarded :
    (Q P : Predicate) (b : Bool) (e : Trouble)
    → Hoare (View (With Q P)) (guard b e) (λ _ s. View (With Q P) s × (b ≡ true)) (View Q)
guarded Q P b e = Hoare-if b (λ h. Hoare-pure tt (λ s q. (q, h))) (λ h. Hoare-fail e (λ s q. q.0))

Still-prepare_model : (env : Env) (profile : Bytes) → Still (prepare_model env profile)
unfolding prepare_model
Still-prepare_model env profile = Still-bind Still-statement λ _.
    Still-bind (Still-guard (env.profiles profile) (store_failed no_rows))
      λ _. Still-guard env.model_ready no_model

Still-load_history : (id : Bytes) → Still (load_history id)
unfolding load_history
Still-load_history id = Still-bind Still-statement (λ _. Still-gets _)

version-Hoare :
    (Q P : Predicate) (t : Task)
    → Hoare
        (View (With Q P))
        (prepare_version t)
        (λ _. View (
          With Q
            (λ tasks active closed. P tasks active closed × (t.runtime_version ≡ runtime_version))))
        (View Q)
unfolding prepare_version
version-Hoare Q P t =
    Hoare-if (bytes_equal t.runtime_version runtime_version)
      (λ h. Hoare-pure tt (λ s q. (q.0, (q.1, bytes_equal→eq t.runtime_version runtime_version h))))
      (λ _.
        Hoare-if (not (is_empty t.runtime_version)) (λ _. Hoare-fail wrong_version (λ s q. q.0))
          (λ _. Hoare-fail needs_upgrade (λ s q. q.0)))

-- what `start` knows before it looks at the grant
abbrev pub Checked : Bytes → Task → Predicate
Checked id t tasks active closed =
    ((closed ≡ false) × (is_running id active ≡ false))
    × ((find_task id tasks ≡ some t) × (t.runtime_version ≡ runtime_version))

-- and before it stores the task
abbrev pub Ready : Env → Bytes → Task → Predicate
Ready env id t tasks active closed =
    Checked id t tasks active closed × (ltb env.now t.grant.expires_at ≡ true)

-- and once it is stored
abbrev Stored : Predicate → Env → Bytes → Task → Predicate
Stored Q env id t tasks active closed =
    (old : List Task) × ((tasks ≡ put_in (started t) old)
      × (Q old active closed × Ready env id t old active closed))

module _ (Q R : Predicate) (env : Env) (id : Bytes) (input : Input)
    (adds : (t : Task) (history : List Message) (tasks : List Task) (active : List Run)
      → Q tasks active false
      → Ready env id t tasks active false
      → R (put_in (started t) tasks) (active ++ new_run id t history input ∷ []) false) where
  add-Hoare :
      (t : Task) (history : List Message)
      → Hoare {E = Trouble}
          (View (Stored Q env id t))
          (modify (λ s. record s { active = s.active ++ new_run id t history input ∷ [] }))
          (λ _. View R)
          (View Q)
  add-Hoare t history = record {
    at = λ s q.
        let (old, (e, (p, r))) = q in
        let open_mark : s.closed ≡ false = r.0.0.0 in
        let p' : Q old s.active false = subst (λ c. Q old s.active c) open_mark p in
        let r' : Ready env id t old s.active false = (((refl, r.0.0.1), r.0.1), r.1) in
        rw (open_mark, e) (adds t history old s.active p' r');
  }

  ready-Hoare :
      (t : Task)
      → Hoare
          (View (With Q (Ready env id t)))
          (do
            prepare_model env t.profile_id
            loaded ← load_history id
            let history =
                if was_broken_off t then complete_interrupted_tool_calls loaded else loaded
            guard env.tools_ready no_tools
            stored (put_task (started t))
            modify (λ s. record s { active = s.active ++ new_run id t history input ∷ [] }))
          (λ _. View R)
          (View Q)
  ready-Hoare t = Hoare-bind (still Q (Ready env id t) (Still-prepare_model env t.profile_id)) λ _.
      Hoare-bind (still Q (Ready env id t) (Still-load_history id)) λ loaded.
        Hoare-bind (still Q (Ready env id t) (Still-guard env.tools_ready no_tools)) λ _.
          Hoare-bind
            (Hoare-after (λ a s q. q) (λ s q. q.0)
              (put_task-Hoare (With Q (Ready env id t)) (Stored Q env id t) (started t)
                λ tasks active closed q. (tasks, (refl, q))))
            λ _. add-Hoare t _

  -- Where the added run takes `Q` to `R`, so does `start`.
  pub start-Hoare : Hoare (View Q) (start env id input) (λ _. View R) (View Q)
  unfolding start
  start-Hoare =
      Hoare-gets (λ s. s.closed)
        λ c.
          Hoare-bind
            (Hoare-before {P' = View (With Q (λ tasks active closed. closed ≡ c))} (λ s q. q)
              (guarded Q (λ tasks active closed. closed ≡ c) (not c) exiting))
            λ _.
              Hoare-gets (λ s. is_running id s.active)
                λ r.
                  Hoare-bind
                    (Hoare-before
                      {P' = View (
                        With Q
                          (λ tasks active closed. (closed ≡ false) × (is_running id active ≡ r)))}
                      (λ s q.
                        let e = q.0.1 in let k = q.0.0.1 in (q.0.0.0, (k ∙ ground arith, q.1)))
                      (guarded Q
                        (λ tasks active closed. (closed ≡ false) × (is_running id active ≡ r))
                        (not r) still_running))
                    λ _.
                      Hoare-bind
                        (Hoare-before
                          {P' = View (
                            With Q (λ tasks active closed.
                              (closed ≡ false) × (is_running id active ≡ false)))}
                          (λ s q. let e = q.1 in (q.0.0, (q.0.1.0, q.0.1.1 ∙ ground arith)))
                          (Hoare-after (λ t s q. q) (λ s q. q.0)
                            (load_task-Hoare
                              (With Q (λ tasks active closed.
                                (closed ≡ false) × (is_running id active ≡ false)))
                              id)))
                        λ t.
                          Hoare-bind
                            (Hoare-before
                              {P' = View (
                                With Q (λ tasks active closed.
                                  ((closed ≡ false) × (is_running id active ≡ false))
                                  × (find_task id tasks ≡ some t)))}
                              (λ s q. (q.0.0, (q.0.1, q.1))) (version-Hoare Q _ t))
                            λ _.
                              Hoare-bind
                                (Hoare-before (λ s q. (q.0, (q.1.0.0, (q.1.0.1, q.1.1))))
                                  (guarded Q (Checked id t) (ltb env.now t.grant.expires_at)
                                    grant_expired))
                                λ _. Hoare-before (λ s q. (q.0.0, (q.0.1, q.1))) (ready-Hoare t)
