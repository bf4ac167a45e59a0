-- ===== src/Agent/Service/Frames.antt =====
-- Predicates on the tasks, the runs and the mark of the end, and the actions that leave these alone.
use nex_shell.Prelude.{
  ◌≡◌, ◌≢◌, ◌⊎◌, inl, inr, refl, ◌∙◌, Bool, true, false, Option, none, some, List, [], ◌∷◌,
  if◌then◌else◌, Bytes, Result, ok, err, pure, fail, gets, modify, continue, ◌>>=◌, Post, Hoare,
}
use nex_shell.Agent.Service.{
  Run, Service, Trouble, Env, Call, with_db, stored, guard, dropped, attempt, or_error, event,
  of_result, load_host, set_value, identify, store_failed,
}
use nex_shell.Agent.Types.{Task, host_digest}
use nex_shell.Store.{Fault, Db, Action, statement, put_in, put_task}
use nex_shell.Store.Queries.{
  of_task, results, find_task, or_missing, load_task, statement-tasks, load_task-found,
  put_task-tasks,
}

-- a predicate on what the rest of the service does not touch
abbrev pub View : (List Task → List Run → Bool → Type 0) → Service → Type 0
View Q s = Q s.db.tasks s.active s.closed

-- the other state has the same tasks, runs and mark
pub record Alike (s s' : Service) : Type 0 where
  pub tasks : s'.db.tasks ≡ s.db.tasks
  pub active : s'.active ≡ s.active
  pub closed : s'.closed ≡ s.closed

pub Alike-View :
    (Q : List Task → List Run → Bool → Type 0) (s s' : Service) → Alike s s' → View Q s → View Q s'
Alike-View Q s s' a q = rw (a.tasks, a.active, a.closed) q

pub Alike-refl : (s : Service) → Alike s s
Alike-refl s = record { tasks = refl; active = refl; closed = refl }

pub Alike-trans : (s t u : Service) → Alike s t → Alike t u → Alike s u
Alike-trans s t u a b = record {
  tasks = b.tasks ∙ a.tasks;
  active = b.active ∙ a.active;
  closed = b.closed ∙ a.closed;
}

pub record Still {A : Type 0} (m : Call A) : Type 0 where
  pub at : (s : Service) → Alike s (m s).1

module _ {A : Type 0} where
  pub Still-pure : (a : A) → Still (pure a)
  Still-pure a = record { at = Alike-refl }

  pub Still-fail : (e : Trouble) → Still {A = A} (fail e)
  Still-fail e = record { at = Alike-refl }

  pub Still-gets : (f : Service → A) → Still (gets f)
  Still-gets f = record { at = Alike-refl }

  pub Still-if : (b : Bool) {m n : Call A} → Still m → Still n → Still (if b then m else n)
  Still-if true p q = p
  Still-if false p q = q

  pub Still-or_error : (e : Trouble) (o : Option A) → Still (or_error e o)
  Still-or_error e none = Still-fail e
  Still-or_error e (some a) = Still-pure a

  pub Still-of_result : (r : Result Fault A) → Still (of_result r)
  Still-of_result (ok a) = Still-pure a
  Still-of_result (err e) = Still-fail (store_failed e)

pub Still-guard : (b : Bool) (e : Trouble) → Still (guard b e)
Still-guard b e = Still-if b (Still-pure tt) (Still-fail e)

pub Still-modify : {f : Service → Service} → ((s : Service) → Alike s (f s)) → Still (modify f)
Still-modify h = record { at = h }

module _ {A B : Type 0} where
  continue-Alike :
      (s : Service) (x : Result Trouble A × Service) (f : A → Call B)
      → Alike s x.1
      → ((a : A) → Still (f a))
      → Alike s (continue x f).1
  continue-Alike s (ok a, t) f p q = Alike-trans s t (f a t).1 p ((q a).at t)
  continue-Alike s (err e, t) f p q = p

  pub Still-bind :
      {m : Call A} {f : A → Call B} → Still m → ((a : A) → Still (f a)) → Still (m >>= f)
  Still-bind {m} {f} p q = record { at = λ s. continue-Alike s (m s) f (p.at s) q }

module _ {A : Type 0} where
  dropped-Alike :
      (s : Service) (x : Result Trouble A × Service) → Alike s x.1 → Alike s (dropped x).1
  dropped-Alike s (ok a, t) h = h
  dropped-Alike s (err e, t) h = h

  pub Still-attempt : {m : Call A} → Still m → Still (attempt m)
  Still-attempt {m} h = record { at = λ s. dropped-Alike s (m s) (h.at s) }

  -- an action of the store that leaves the tasks alone
  with_db-Alike :
      (s : Service) (x : Result Fault A × Db) → x.1.tasks ≡ s.db.tasks → Alike s (with_db x s).1
  with_db-Alike s (ok a, db) h = record { tasks = h; active = refl; closed = refl }
  with_db-Alike s (err e, db) h = record { tasks = h; active = refl; closed = refl }

  pub Still-stored : (m : Action A) → ((db : Db) → (m db).1.tasks ≡ db.tasks) → Still (stored m)
  Still-stored m h = record { at = λ s. with_db-Alike s (m s.db) (h s.db) }

pub Still-statement : Still (stored statement)
Still-statement = Still-stored statement statement-tasks

module _ {A B : Type 0} where
  -- a read behind a statement
  bound-tasks :
      (db : Db) (x : Result Fault A × Db) (f : A → Action B)
      → x.1.tasks ≡ db.tasks
      → ((a : A) (d : Db) → (f a d).1.tasks ≡ d.tasks)
      → (continue x f).1.tasks ≡ db.tasks
  bound-tasks db (ok a, d) f p q = q a d ∙ p
  bound-tasks db (err e, d) f p q = p

or_missing-tasks : {A : Type 0} (o : Option A) (db : Db) → (or_missing o db).1.tasks ≡ db.tasks
unfolding or_missing
or_missing-tasks none db = refl
or_missing-tasks (some a) db = refl

pub Still-load_task : (id : Bytes) → Still (stored (load_task id))
unfolding load_task
Still-load_task id = Still-stored (load_task id) λ db.
    bound-tasks db (statement db) (λ _ d. or_missing (find_task id d.tasks) d) (statement-tasks db)
      (λ _ d. or_missing-tasks (find_task id d.tasks) d)

pub Still-results : (id : Bytes) → Still (stored (results id))
unfolding results
Still-results id = Still-stored (results id) λ db.
    bound-tasks db (statement db) (λ _. gets (λ d. of_task id d.executions)) (statement-tasks db)
      (λ _ d. refl)

pub Still-event : (id kind text : Bytes) → Still (event id kind text)
unfolding event
Still-event id kind text =
    Still-bind Still-statement
      λ _. Still-modify (λ s. record { tasks = refl; active = refl; closed = refl })

pub Still-load_host : (env : Env) (id : Bytes) → Still (load_host env id)
unfolding load_host
Still-load_host env id = Still-bind Still-statement (λ _. Still-of_result (env.hosts id))

pub Still-identify :
    (env : Env) (hosts : List Bytes) (identities : List (Bytes × Bytes))
    → Still (identify env hosts identities)
unfolding identify
Still-identify env [] identities = Still-pure identities
Still-identify env (id ∷ hosts) identities =
    Still-bind (Still-load_host env id)
      λ h. Still-identify env hosts (set_value id (host_digest env.encoders h) identities)

-- A still action keeps every predicate of this kind.
pub Still-Hoare :
    {A : Type 0} (Q : List Task → List Run → Bool → Type 0) {m : Call A}
    → Still m
    → Hoare (View Q) m (λ _. View Q) (View Q)
Still-Hoare Q {m} h = record { at = λ s q. either s (m s) (h.at s) q }
  where
    either :
        {A : Type 0} (s : Service) (x : Result Trouble A × Service)
        → Alike s x.1
        → View Q s
        → Post (λ _. View Q) (View Q) x
    either s (ok a, t) h q = Alike-View Q s t h q
    either s (err e, t) h q = Alike-View Q s t h q

module _ (Q : List Task → List Run → Bool → Type 0) where
  -- A task that was loaded is the one stored.
  pub load_task-Hoare :
      (id : Bytes)
      → Hoare
          (View Q)
          (stored (load_task id))
          (λ t s. View Q s × (find_task id s.db.tasks ≡ some t))
          (View Q)
  load_task-Hoare id = record {
    at = λ s q.
        either s (load_task id s.db) (load_task-found id s.db)
          (λ a. Alike-View Q s (with_db (load_task id s.db) s).1 a q) ((Still-load_task id).at s);
  }
    where
      either :
          (s : Service) (x : Result Fault Task × Db)
          → ((t : Task) → x.0 ≡ ok t → find_task id x.1.tasks ≡ some t)
          → (Alike s (with_db x s).1 → View Q (with_db x s).1)
          → Alike s (with_db x s).1
          → Post (λ t s. View Q s × (find_task id s.db.tasks ≡ some t)) (View Q) (with_db x s)
      either s (ok t, db) f q a = (q a, f t refl)
      either s (err e, db) f q a = q a

  pub put_task-Hoare :
      (R : List Task → List Run → Bool → Type 0) (t : Task)
      → ((tasks : List Task) (active : List Run) (closed : Bool)
          → Q tasks active closed
          → R (put_in t tasks) active closed)
      → Hoare (View Q) (stored (put_task t)) (λ _. View R) (View Q)
  put_task-Hoare R t f = record { at = λ s q. either s (put_task t s.db) (put_task-tasks t s.db) q }
    where
      either :
          (s : Service) (x : Result Fault (Unit {0}) × Db)
          → ((x.0 ≡ ok tt) × (x.1.tasks ≡ put_in t s.db.tasks))
            ⊎ ((x.0 ≢ ok tt) × (x.1.tasks ≡ s.db.tasks))
          → View Q s
          → Post (λ _. View R) (View Q) (with_db x s)
      either s (ok u, db) (inl (o, e)) q = rw e (f s.db.tasks s.active s.closed q)
      either s (ok tt, db) (inr (n, e)) q = absurd (n refl)
      either s (err b, db) (inl (o, e)) q = cc
      either s (err b, db) (inr (n, e)) q = rw e q

-- an action that never fails and leaves the tasks, the runs and the mark alone
pub record Calm {A : Type 0} (m : Call A) : Type 0 where
  pub at : (s : Service) → (a : A) × (((m s).0 ≡ ok a) × Alike s (m s).1)

module _ {A : Type 0} where
  pub Calm-pure : (a : A) → Calm (pure a)
  Calm-pure a = record { at = λ s. (a, (refl, Alike-refl s)) }

  pub Calm-gets : (f : Service → A) → Calm (gets f)
  Calm-gets f = record { at = λ s. (f s, (refl, Alike-refl s)) }

  pub Calm-if : (b : Bool) {m n : Call A} → Calm m → Calm n → Calm (if b then m else n)
  Calm-if true p q = p
  Calm-if false p q = q

  dropped-Calm :
      (s : Service) (x : Result Trouble A × Service)
      → Alike s x.1
      → (o : Option A) × (((dropped x).0 ≡ ok o) × Alike s (dropped x).1)
  dropped-Calm s (ok a, t) h = (some a, (refl, h))
  dropped-Calm s (err e, t) h = (none, (refl, h))

  pub Calm-attempt : {m : Call A} → Still m → Calm (attempt m)
  Calm-attempt {m} h = record { at = λ s. dropped-Calm s (m s) (h.at s) }

  pub Calm-Still : {m : Call A} → Calm m → Still m
  Calm-Still {m} h = record { at = λ s. (h.at s).1.1 }

module _ {A B : Type 0} where
  continue-Calm :
      (s : Service) (x : Result Trouble A × Service) (f : A → Call B)
      → (a : A) × ((x.0 ≡ ok a) × Alike s x.1)
      → ((a : A) → Calm (f a))
      → (b : B) × (((continue x f).0 ≡ ok b) × Alike s (continue x f).1)
  continue-Calm s (err e, t) f (a, (h, p)) q = cc
  continue-Calm s (ok c, t) f (a, (h, p)) q =
      let (b, (k, r)) = (q c).at t in (b, (k, Alike-trans s t (f c t).1 p r))

  pub Calm-bind : {m : Call A} {f : A → Call B} → Calm m → ((a : A) → Calm (f a)) → Calm (m >>= f)
  Calm-bind {m} {f} p q = record { at = λ s. continue-Calm s (m s) f (p.at s) q }
