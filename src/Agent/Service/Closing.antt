-- ===== src/Agent/Service/Closing.antt =====
-- After `Stop` nothing starts, and the end of a run removes it from the service.
use mathlib.Core.Bool.{false≢true}
use nex_shell.Prelude.{
  bytes_equal→eq, ◌≡◌, refl, ◌∙◌, ap, Bool, true, false, Option, none, some, List, [], ◌∷◌, arith,
  Bool-cases, inl, inr, Bytes, bytes_equal, bytes_equal_refl, codes, Result, ok, err, continue,
  ◌>>=◌,
}
use nex_shell.Agent.Service.{
  Run, Service, Trouble, Call, with_db, stored, dropped, attempt, is_running, without_run,
}
use nex_shell.Agent.Service.Active.{is_running-without, is_running-on_run, is_running-map}
use nex_shell.Agent.Service.Control.{cancelled_run, stop}
use nex_shell.Agent.Service.Finish.{end_run}
use nex_shell.Agent.Service.Frames.{Calm, Still-event, Calm-attempt}
use nex_shell.Agent.Service.Begin.{Predicate}
use nex_shell.Agent.Service.Keeps.{Invariant}
use nex_shell.Agent.Service.Steps.{Steps, Steps-View, settle-Settles, is_running-without_run}
use nex_shell.Agent.Service.Turn.{RunError, EventState}
use nex_shell.Agent.Types.{Task}
use nex_shell.Store.{Fault, Db, Action, put_task}

-- The service is closed, and only tasks of the given runs run.
abbrev ClosedOn : List Run → Predicate
ClosedOn runs tasks active closed =
    (closed ≡ true) × ((id : Bytes) → is_running id runs ≡ false → is_running id active ≡ false)

ClosedOn-Invariant : (runs : List Run) → Invariant (ClosedOn runs)
ClosedOn-Invariant runs = record {
  puts = λ t tasks active closed q n. q;
  renews = λ t u tasks active closed q f v s. q;
  adds = λ r tasks active q n f s v. let k = q.0 in cc;
  changes = λ id f tasks active closed e q.
      (q.0, λ key h. is_running-on_run id key f active e ∙ q.1 key h);
  stops = λ tasks active closed q.
      (refl, λ key h. is_running-map key cancelled_run active (λ r. refl) ∙ q.1 key h);
  removes =
      λ id tasks active closed q. (q.0, λ key h. is_running-without id key active (q.1 key h));
}

-- `Stop` is final: whatever is called later, the service stays closed, and a task that did not run when it
-- was stopped does not run.
pub stop_final :
    (s s' : Service) (id : Bytes)
    → Steps (stop s).1 s'
    → is_running id s.active ≡ false
    → (s'.closed ≡ true) × (is_running id s'.active ≡ false)
stop_final s s' id steps idle =
    let (shut, none_new) =
      Steps-View (ClosedOn s.active) (ClosedOn-Invariant s.active) (stop s).1 s' steps
        (unfold stop in (refl, λ id h. is_running-map id cancelled_run s.active (λ r. refl) ∙ h)) in
    (shut, none_new id idle)

-- an action that never fails, and what it makes of the runs
record Lasts {A : Type 0} (g : List Run → List Run) (m : Call A) : Type 0 where
  at : (s : Service) → (a : A) × (((m s).0 ≡ ok a) × ((m s).1.active ≡ g s.active))

abbrev same_runs : List Run → List Run
same_runs runs = runs

Lasts-Calm : {A : Type 0} {m : Call A} → Calm m → Lasts same_runs m
Lasts-Calm h = record { at = λ s. let (a, (e, k)) = h.at s in (a, (e, k.active)) }

dropped-Lasts :
    {A : Type 0} (s : Service) (x : Result Fault A × Db)
    → (o : Option A) × (((dropped (with_db x s)).0 ≡ ok o)
        × ((dropped (with_db x s)).1.active ≡ s.active))
dropped-Lasts s (ok a, db) = (some a, (refl, refl))
dropped-Lasts s (err e, db) = (none, (refl, refl))

Lasts-stored : {A : Type 0} (m : Action A) → Lasts same_runs (attempt (stored m))
Lasts-stored m = record { at = λ s. dropped-Lasts s (m s.db) }

module _ {A B : Type 0} (g : List Run → List Run) where
  continue-Lasts :
      (s : Service) (x : Result Trouble A × Service) (f : A → Call B)
      → (a : A) × ((x.0 ≡ ok a) × (x.1.active ≡ s.active))
      → ((a : A) → Lasts g (f a))
      → (b : B) × (((continue x f).0 ≡ ok b) × ((continue x f).1.active ≡ g s.active))
  continue-Lasts s (err e, t) f (a, (h, p)) q = cc
  continue-Lasts s (ok c, t) f (a, (h, p)) q = let (b, (k, r)) = (q c).at t in (b, (k, r ∙ ap g p))

  Lasts-bind :
      {m : Call A} {f : A → Call B}
      → Lasts same_runs m
      → ((a : A) → Lasts g (f a))
      → Lasts g (m >>= f)
  Lasts-bind {m} {f} p q = record { at = λ s. continue-Lasts s (m s) f (p.at s) q }

module _ (readable : Bytes → Bool) where
  Lasts-end_run :
      (id : Bytes) (t : Task) (state : EventState) (ctx_err : Bool) (exit : Option RunError)
      → Lasts (without_run id) (end_run readable id t state ctx_err exit)
  unfolding end_run
  Lasts-end_run id t state ctx_err exit =
      let u = record t { summary = state.summary } in
      Lasts-bind (without_run id)
        (Lasts-Calm (settle-Settles readable id u state ctx_err exit).calm)
        λ out. Lasts-bind (without_run id) (Lasts-stored (put_task out)) λ _.
          Lasts-bind (without_run id)
            (Lasts-Calm (Calm-attempt (Still-event id (codes "task_state") out.status)))
            λ _. record { at = λ s. (tt, (refl, refl)) }

  -- how a run ends
  pub record Ending : Type 0 where
    pub state : EventState
    pub ctx_err : Bool
    pub exit : Option RunError

  -- the runs end one after the other
  unfoldable pub end_all : (Run → Ending) → List Run → Service → Service
  end_all how [] s = s
  end_all how (r ∷ runs) s =
      end_all how runs (end_run readable r.id r.task (how r).state (how r).ctx_err (how r).exit s).1

  NoneOf : List Run → Service → Type 0
  NoneOf runs s = (id : Bytes) → is_running id runs ≡ false → is_running id s.active ≡ false

  no_runs : (runs : List Run) → ((id : Bytes) → is_running id runs ≡ false) → runs ≡ []
  unfolding is_running
  no_runs [] h = refl
  no_runs (r ∷ runs) h =
      let k = h r.id in let e = bytes_equal_refl r.id in absurd (false≢true (ground arith))

  end_all-none :
      (how : Run → Ending) (runs : List Run) (s : Service)
      → NoneOf runs s
      → (end_all how runs s).active ≡ []
  unfolding end_all NoneOf is_running
  end_all-none how [] s h = no_runs s.active (λ id. h id refl)
  end_all-none how (r ∷ runs) s h =
      let e = how r in
      let (u, (_, left)) = (Lasts-end_run r.id r.task e.state e.ctx_err e.exit).at s in
      end_all-none how runs (end_run readable r.id r.task e.state e.ctx_err e.exit s).1 λ id n.
        ap (is_running id) left ∙ (elim (Bool-cases (bytes_equal r.id id)) [
          | inl y ↦
              let same = bytes_equal→eq r.id id y in
              rw (← same) (is_running-without_run r.id s.active)
          | inr o ↦ is_running-without r.id id s.active (h id (rw o n))
        ])

  -- Once each run of the service has come to its end, in whichever way and even if the store takes none of
  -- it, no run is left that `Close` would wait for.
  pub end_all_none : (how : Run → Ending) (s : Service) → (end_all how s.active s).active ≡ []
  end_all_none how s = end_all-none how s.active s (unfold NoneOf in λ id h. h)
