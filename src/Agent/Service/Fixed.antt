-- ===== src/Agent/Service/Fixed.antt =====
-- The actions of the service that leave the recorded approvals alone.
use nex_shell.Prelude.{
  ◌≡◌, refl, ◌∙◌, Bool, true, false, not, Option, none, some, [], ◌∷◌, ◌++◌, ltb, if◌then◌else◌,
  Bytes, bytes_equal, Result, ok, err, pure, fail, gets, modify, continue, ◌>>=◌,
}
use nex_shell.Agent.History.{complete_interrupted_tool_calls}
use nex_shell.Agent.Paths.{is_empty}
use nex_shell.Agent.Service.{
  Input, Service, Trouble, store_failed, exiting, still_running, wrong_version, needs_upgrade,
  grant_expired, no_model, no_tools, Env, Call, with_db, stored, guard, or_error, event, is_running,
}
use nex_shell.Agent.Service.Start.{
  runtime_version, prepare_version, prepare_model, load_history, started, start, was_broken_off,
  new_run,
}
use nex_shell.Agent.Types.{Task, Approval}
use nex_shell.Store.{Fault, Db, Action, statement, no_rows, put_task}
use nex_shell.Store.Queries.{load_task}

-- an action that leaves the approvals alone
pub record Fixed {A : Type 0} (m : Call A) : Type 0 where
  pub at : (s : Service) → (m s).1.approvals ≡ s.approvals

module _ {A : Type 0} where
  pub Fixed-pure : (a : A) → Fixed (pure a)
  Fixed-pure a = record { at = λ s. refl }

  pub Fixed-fail : (e : Trouble) → Fixed {A = A} (fail e)
  Fixed-fail e = record { at = λ s. refl }

  pub Fixed-gets : (f : Service → A) → Fixed (gets f)
  Fixed-gets f = record { at = λ s. refl }

  pub Fixed-if : (b : Bool) {m n : Call A} → Fixed m → Fixed n → Fixed (if b then m else n)
  Fixed-if true p q = p
  Fixed-if false p q = q

  pub Fixed-or_error : (e : Trouble) (o : Option A) → Fixed (or_error e o)
  Fixed-or_error e none = Fixed-fail e
  Fixed-or_error e (some a) = Fixed-pure a

  with_db-approvals :
      (s : Service) (x : Result Fault A × Db) → (with_db x s).1.approvals ≡ s.approvals
  with_db-approvals s (ok a, db) = refl
  with_db-approvals s (err e, db) = refl

  pub Fixed-stored : (m : Action A) → Fixed (stored m)
  Fixed-stored m = record { at = λ s. with_db-approvals s (m s.db) }

pub Fixed-guard : (b : Bool) (e : Trouble) → Fixed (guard b e)
Fixed-guard b e = Fixed-if b (Fixed-pure tt) (Fixed-fail e)

pub Fixed-modify :
    {f : Service → Service} → ((s : Service) → (f s).approvals ≡ s.approvals) → Fixed (modify f)
Fixed-modify h = record { at = h }

module _ {A B : Type 0} where
  continue-approvals :
      (x : Result Trouble A × Service) (f : A → Call B) (approvals : Bytes → Option Approval)
      → x.1.approvals ≡ approvals
      → ((a : A) → Fixed (f a))
      → (continue x f).1.approvals ≡ approvals
  continue-approvals (ok a, t) f approvals p q = (q a).at t ∙ p
  continue-approvals (err e, t) f approvals p q = p

  pub Fixed-bind :
      {m : Call A} {f : A → Call B} → Fixed m → ((a : A) → Fixed (f a)) → Fixed (m >>= f)
  Fixed-bind {m} {f} p q = record { at = λ s. continue-approvals (m s) f s.approvals (p.at s) q }

pub Fixed-prepare_model : (env : Env) (profile : Bytes) → Fixed (prepare_model env profile)
unfolding prepare_model
Fixed-prepare_model env profile = Fixed-bind (Fixed-stored statement) λ _.
    Fixed-bind (Fixed-guard (env.profiles profile) (store_failed no_rows))
      λ _. Fixed-guard env.model_ready no_model

pub Fixed-load_history : (id : Bytes) → Fixed (load_history id)
unfolding load_history
Fixed-load_history id = Fixed-bind (Fixed-stored statement) (λ _. Fixed-gets _)

pub Fixed-prepare_version : (t : Task) → Fixed (prepare_version t)
unfolding prepare_version
Fixed-prepare_version t = Fixed-if (bytes_equal t.runtime_version runtime_version) (Fixed-pure tt) (
    Fixed-if (not (is_empty t.runtime_version)) (Fixed-fail wrong_version)
      (Fixed-fail needs_upgrade))

pub Fixed-start : (env : Env) (id : Bytes) (input : Input) → Fixed (start env id input)
unfolding start
Fixed-start env id input = Fixed-bind (Fixed-gets (λ s. s.closed)) λ closed.
    Fixed-bind (Fixed-guard (not closed) exiting) λ _.
      Fixed-bind (Fixed-gets (λ s. is_running id s.active)) λ running.
        Fixed-bind (Fixed-guard (not running) still_running) λ _.
          Fixed-bind (Fixed-stored (load_task id)) λ t. Fixed-bind (Fixed-prepare_version t) λ _.
            Fixed-bind (Fixed-guard (ltb env.now t.grant.expires_at) grant_expired) λ _.
              Fixed-bind (Fixed-prepare_model env t.profile_id) λ _.
                Fixed-bind (Fixed-load_history id) λ loaded.
                  Fixed-bind (Fixed-guard env.tools_ready no_tools) λ _.
                    Fixed-bind (Fixed-stored (put_task (started t))) λ _.
                      let history =
                        if was_broken_off t
                        then complete_interrupted_tool_calls loaded
                        else loaded in
                      Fixed-modify
                        {f = λ s. record s { active = s.active ++ new_run id t history input ∷ [] }}
                        (λ s. refl)

pub Fixed-event : (id kind text : Bytes) → Fixed (event id kind text)
unfolding event
Fixed-event id kind text = Fixed-bind (Fixed-stored statement) λ _. Fixed-modify (λ s. refl)
