-- ===== src/Agent/Service/Steps.antt =====
-- What may happen to the service, one step after the other, and what it keeps.
use nex_shell.Prelude.{
  ◌≡◌, refl, Bool, true, false, Option, none, some, List, [], ◌∷◌, if◌then◌else◌, Bool-cases, inl,
  inr, Bytes, codes, bytes_equal, Result, ok, err, pure, Yields, Yields-pure, Yields-bind,
  Yields-if, Post, Hoare-bind, Hoare-before, Hoare-after, Hoare-Yields,
}
use nex_shell.Agent.Policy.{is}
use nex_shell.Agent.Service.{Input, Run, Service, Trouble, Env, Call, is_running, without_run}
use nex_shell.Agent.Service.Control.{submit, resume, decide, cancel, stop, submit_files}
use nex_shell.Agent.Service.Create.{new_task, new_conversation}
use nex_shell.Agent.Service.Finish.{
  blocked_text, first_text, ended, readable_verification, is_idle_talk, verified, settle_quiet,
  settle_exit, settle_error, settle_blocked, settle, end_run,
}
use nex_shell.Agent.Service.Frames.{
  View, Alike-View, Still-Hoare, Still-results, Still-event, Calm, Calm-pure, Calm-if, Calm-gets,
  Calm-bind, Calm-attempt, Calm-Still, put_task-Hoare,
}
use nex_shell.Agent.Service.Stopping.{attempt-Keeps, cancel-Keeps, stop-Keeps}
use nex_shell.Agent.Verify.{all_verified}
use nex_shell.Agent.Service.Invariants.{
  submit-Keeps, resume-Keeps, decide-Keeps, submit_files-Keeps, new_task-Keeps,
  new_conversation-Keeps,
}
use nex_shell.Agent.Service.Begin.{Predicate, With, still}
use nex_shell.Agent.Service.Keeps.{Invariant, Keeps, start-Keeps}
use nex_shell.Agent.Service.Quiet.{Quiet-gen_input, Quiet-gen_resume, Quiet-consume_events}
use nex_shell.Agent.Service.Start.{start}
use nex_shell.Agent.Service.Turn.{
  RunError, EventState, Turn, AgentEvent, gen_input, gen_resume, consume_events,
}
use nex_shell.Agent.Types.{Task}
use nex_shell.Store.{Db}

-- an action that never fails, yields the same task with another status and leaves everything else alone
pub record Settles (t : Task) (m : Call Task) : Type 0 where
  pub calm : Calm m
  pub same : Yields (λ out. out.id ≡ t.id) m

Settles-pure : (t out : Task) → out.id ≡ t.id → Settles t (pure out)
Settles-pure t out e = record { calm = Calm-pure out; same = Yields-pure out e }

module _ (readable : Bytes → Bool) (id : Bytes) (t : Task) where
  quiet-Settles : Settles t (settle_quiet readable id t)
  unfolding settle_quiet is_idle_talk verified
  quiet-Settles = record {
    calm =
        Calm-bind
          (Calm-if (is "conversation" t.mode)
            (Calm-bind (Calm-attempt (Still-results id)) λ list. Calm-pure _) (Calm-pure false))
          λ talk. Calm-if talk (Calm-pure (ended t (codes "ready"))) (
            Calm-bind
              (Calm-bind (Calm-attempt (Still-results id)) λ list.
                Calm-bind (Calm-gets (λ s. s.verifications id))
                  λ v. Calm-pure (all_verified list (readable_verification readable v)))
              λ done.
                Calm-if done (Calm-pure (ended t (codes "completed")))
                  (Calm-pure (ended t (codes "needs_verification"))));
    same = Yields-bind (is_idle_talk id t) λ talk.
        Yields-if talk (λ _. Yields-pure (ended t (codes "ready")) refl)
          (λ _. Yields-bind (verified readable id) λ done.
            Yields-if done (λ _. Yields-pure (ended t (codes "completed")) refl)
              (λ _. Yields-pure (ended t (codes "needs_verification")) refl));
  }

  exit-Settles : (exit : Option RunError) → Settles t (settle_exit readable id t exit)
  unfolding settle_exit
  exit-Settles none = quiet-Settles
  exit-Settles (some e) = Settles-pure t _ refl

  error-Settles : (error exit : Option RunError) → Settles t (settle_error readable id t error exit)
  unfolding settle_error
  error-Settles none exit = exit-Settles exit
  error-Settles (some e) exit = Settles-pure t _ refl

  blocked-Settles :
      (text : Option Bytes) (error exit : Option RunError)
      → Settles t (settle_blocked readable id t text error exit)
  unfolding settle_blocked
  blocked-Settles none error exit = error-Settles error exit
  blocked-Settles (some text) error exit = Settles-pure t _ refl

  pub settle-Settles :
      (state : EventState) (ctx_err : Bool) (exit : Option RunError)
      → Settles t (settle readable id t state ctx_err exit)
  unfolding settle
  settle-Settles state ctx_err exit = either state.pending ctx_err
    where
      either :
          (a b : Bool)
          → Settles t (
              if a
              then pure (ended t (codes "awaiting_approval"))
              else if b
              then pure (ended t (codes "interrupted"))
              else settle_blocked readable id t
                  (first_text (blocked_text state.error) (blocked_text exit))
                  state.error
                  exit)
      either true b = Settles-pure t _ refl
      either false true = Settles-pure t _ refl
      either false false = blocked-Settles _ state.error exit

-- without the run of that identifier
abbrev Past : Bytes → Predicate → Predicate
Past id Q tasks active closed = Q tasks (without_run id active) closed

pub is_running-without_run :
    (id : Bytes) (runs : List Run) → is_running id (without_run id runs) ≡ false
unfolding is_running without_run
is_running-without_run id [] = refl
is_running-without_run id (r ∷ runs) = elim (Bool-cases (bytes_equal r.id id)) [
  | inl y ↦ rw y (is_running-without_run id runs)
  | inr n ↦ rw n (rw n (is_running-without_run id runs))
]

module _ (Q : Predicate) (inv : Invariant Q) where
  end_run-Keeps :
      (readable : Bytes → Bool) (id : Bytes) (t : Task) (state : EventState) (ctx_err : Bool)
      (exit : Option RunError)
      → t.id ≡ id
      → Keeps Q (end_run readable id t state ctx_err exit)
  unfolding end_run
  end_run-Keeps readable id t state ctx_err exit same =
      let u = record t { summary = state.summary } in
      let s = settle-Settles readable id u state ctx_err exit in
      Hoare-before {P' = View (With Q (Past id Q))}
        (λ s q. (q, inv.removes id s.db.tasks s.active s.closed q))
        (Hoare-bind (Hoare-Yields s.same (still Q (Past id Q) (Calm-Still s.calm))) λ out.
          Hoare-bind
            (attempt-Keeps (
              Hoare-after {Q' = λ a. View (Past id Q)}
                {F' = View
                  (λ tasks active closed. (Past id Q tasks active closed) × (out.id ≡ u.id))}
                (λ a s q. q) (λ s q. q.0)
                (Hoare-before (λ s q. (q.0.1, q.1))
                  (put_task-Hoare
                    (λ tasks active closed. (Past id Q tasks active closed) × (out.id ≡ u.id))
                    (Past id Q) out
                    λ tasks active closed q.
                      inv.puts out tasks (without_run id active) closed q.0
                        (rw (q.1, same) (is_running-without_run id active))))))
            λ _.
              Hoare-bind
                (attempt-Keeps
                  (Still-Hoare (Past id Q) (Still-event id (codes "task_state") out.status)))
                λ _. record { at = λ s q. q })

-- one thing that happens: a call, what a run does during a turn, the end of a run, or what the executor does
-- in the database, where it touches no task
pub data Step : Service → Service → Type 0 where
  starts : (env : Env) (id : Bytes) (input : Input) (s : Service) → Step s (start env id input s).1
  submits : (env : Env) (id text : Bytes) (s : Service) → Step s (submit env id text s).1
  submits_files :
      (env : Env) (id text : Bytes) (paths : List Bytes) (s : Service)
      → Step s (submit_files env id text paths s).1
  resumes : (env : Env) (id : Bytes) (s : Service) → Step s (resume env id s).1
  decides :
      (env : Env) (id approval : Bytes) (accept : Bool) (s : Service)
      → Step s (decide env id approval accept s).1
  cancels : (id : Bytes) (s : Service) → Step s (cancel id s).1
  stops : (s : Service) → Step s (stop s).1
  creates :
      (env : Env) (goal profile : Bytes) (hosts ops resources roots : List Bytes) (s : Service)
      → is_running env.fresh_id s.active ≡ false
      → Step s (new_task env goal profile hosts ops resources roots s).1
  converses :
      (env : Env) (profile : Bytes) (hosts roots : List Bytes) (s : Service)
      → is_running env.fresh_id s.active ≡ false
      → Step s (new_conversation env profile hosts roots s).1
  takes_input :
      (id : Bytes) (items : List Input) (t : Turn) → Step t.service (gen_input id items t).1.service
  takes_answers :
      (items : List Input) (targets : List (Bytes × Bool)) (t : Turn)
      → Step t.service (gen_resume items targets t).1.service
  consumes :
      (id : Bytes) (cancelled : Bool) (events : List AgentEvent) (t : Turn)
      → Step t.service (consume_events id cancelled events t).1.service
  ends :
      (readable : Bytes → Bool) (id : Bytes) (t : Task) (state : EventState) (ctx_err : Bool)
      (exit : Option RunError) (s : Service)
      → t.id ≡ id
      → Step s (end_run readable id t state ctx_err exit s).1
  executes : (db : Db) (s : Service) → db.tasks ≡ s.db.tasks → Step s (record s { db = db })

pub data Steps : Service → Service → Type 0 where
  done : (s : Service) → Steps s s
  next : (s t u : Service) → Step s t → Steps t u → Steps s u

after :
    {A : Type 0} (Q : Predicate) (x : Result Trouble A × Service)
    → Post (λ _. View Q) (View Q) x
    → View Q x.1
after Q (ok a, s) p = p
after Q (err e, s) p = p

module _ (Q : Predicate) (inv : Invariant Q) where
  pub Step-View : (s t : Service) → Step s t → View Q s → View Q t
  Step-View s t (starts env id input _) q =
      after Q (start env id input s) ((start-Keeps Q inv env id input).at s q)
  Step-View s t (submits env id text _) q =
      after Q (submit env id text s) ((submit-Keeps Q inv env id text).at s q)
  Step-View s t (submits_files env id text paths _) q =
      after Q (submit_files env id text paths s)
        ((submit_files-Keeps Q inv env id text paths).at s q)
  Step-View s t (resumes env id _) q =
      after Q (resume env id s) ((resume-Keeps Q inv env id).at s q)
  Step-View s t (decides env id approval accept _) q =
      after Q (decide env id approval accept s) ((decide-Keeps Q inv env id approval accept).at s q)
  Step-View s t (cancels id _) q = after Q (cancel id s) ((cancel-Keeps Q inv id).at s q)
  Step-View s t (stops _) q = after Q (stop s) ((stop-Keeps Q inv).at s q)
  Step-View s t (creates env goal profile hosts ops resources roots _ fresh) q =
      after Q (new_task env goal profile hosts ops resources roots s)
        ((new_task-Keeps Q inv env goal profile hosts ops resources roots).at s (q, fresh))
  Step-View s t (converses env profile hosts roots _ fresh) q =
      after Q (new_conversation env profile hosts roots s)
        ((new_conversation-Keeps Q inv env profile hosts roots).at s (q, fresh))
  Step-View s t (takes_input id items w) q =
      Alike-View Q w.service (gen_input id items w).1.service ((Quiet-gen_input id items).at w) q
  Step-View s t (takes_answers items targets w) q =
      Alike-View Q w.service (gen_resume items targets w).1.service
        ((Quiet-gen_resume items targets).at w) q
  Step-View s t (consumes id cancelled events w) q =
      Alike-View Q w.service (consume_events id cancelled events w).1.service
        ((Quiet-consume_events id cancelled events).at w) q
  Step-View s t (ends readable id task state ctx_err exit _ same) q =
      after Q (end_run readable id task state ctx_err exit s)
        ((end_run-Keeps Q inv readable id task state ctx_err exit same).at s q)
  Step-View s t (executes db _ e) q = rw e q

  pub Steps-View : (s t : Service) → Steps s t → View Q s → View Q t
  Steps-View s t (done _) q = q
  Steps-View s t (next _ u _ first later) q = Steps-View u t later (Step-View s u first q)
