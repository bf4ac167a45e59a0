-- ===== src/Agent/Service/Stopping.antt =====
-- The calls that stop a task or the service keep every invariant.
use nex_shell.Prelude.{
  ◌≡◌, refl, false, ◌||◌, Option, none, some, List, [], ◌∷◌, Bool-cases, inl, inr, Bytes, codes,
  bytes_equal, Result, ok, err, modify, Post, Hoare, Hoare-pure, Hoare-if, Hoare-bind, Hoare-gets,
  Hoare-before, Hoare-after,
}
use nex_shell.Agent.Policy.{is}
use nex_shell.Agent.Service.{
  Run, Service, Trouble, Call, dropped, attempt, is_running, find_run, on_run,
}
use nex_shell.Agent.Service.Control.{cancelled_run, break_off, cancel_found, cancel, stop}
use nex_shell.Agent.Service.Frames.{
  View, Still-Hoare, Still-event, Still-attempt, load_task-Hoare, put_task-Hoare,
}
use nex_shell.Agent.Service.Begin.{Predicate, With}
use nex_shell.Agent.Service.Keeps.{Invariant, Keeps}
use nex_shell.Agent.Types.{Task}
use nex_shell.Store.Queries.{find_task-id}

pub find_run-none :
    (id : Bytes) (runs : List Run) → find_run id runs ≡ none → is_running id runs ≡ false
unfolding find_run is_running
find_run-none id [] h = refl
find_run-none id (r ∷ runs) h = elim (Bool-cases (bytes_equal r.id id)) [
  | inl y ↦ (let k = rw y at h in cc)
  | inr n ↦ rw n (find_run-none id runs (rw n at h))
]

-- what an attempt leaves, with or without a result
abbrev pub Either : {A S : Type 0} → (A → S → Type 0) → (S → Type 0) → Option A → S → Type 0
Either R F (some a) s = R a s
Either R F none s = F s

pub attempt-Hoare :
    {A : Type 0} {P F F' : Service → Type 0} {R : A → Service → Type 0} {m : Call A}
    → Hoare P m R F
    → Hoare P (attempt m) (Either R F) F'
attempt-Hoare {A} {P} {F} {F'} {R} {m} h = record { at = λ s p. either (m s) (h.at s p) }
  where
    either : (x : Result Trouble A × Service) → Post R F x → Post (Either R F) F' (dropped x)
    either (ok a, s) p = p
    either (err e, s) p = p

pub attempt-Keeps :
    {A : Type 0} {P F F' : Service → Type 0} {m : Call A}
    → Hoare P m (λ _. F) F
    → Hoare P (attempt m) (λ _. F) F'
attempt-Keeps {A} {P} {F} {F'} {m} h = record { at = λ s p. either (m s) (h.at s p) }
  where
    either : (x : Result Trouble A × Service) → Post (λ _. F) F x → Post (λ _. F) F' (dropped x)
    either (ok a, s) p = p
    either (err e, s) p = p

module _ (Q : Predicate) (inv : Invariant Q) where
  pub on_run-Keeps :
      (id : Bytes) (f : Run → Run)
      → ((r : Run) → (f r).id ≡ r.id)
      → Keeps Q (modify (λ s. record s { active = on_run id f s.active }))
  on_run-Keeps id f h = record { at = λ s q. inv.changes id f s.db.tasks s.active s.closed h q }

  pub stop-Keeps : Keeps Q stop
  unfolding stop
  stop-Keeps = record { at = λ s q. inv.stops s.db.tasks s.active s.closed q }

  -- what `Cancel` knows of a task that it has loaded
  break_off-Keeps :
      (id : Bytes) (o : Option Task)
      → Hoare
          (Either
            (λ t. View (With Q (λ tasks active closed. is_running t.id active ≡ false)))
            (View Q)
            o)
          (break_off id o)
          (λ _. View Q)
          (View Q)
  unfolding break_off
  break_off-Keeps id none = Hoare-pure tt (λ s q. q)
  break_off-Keeps id (some t) =
      Hoare-if (is "awaiting_approval" t.status || is "ready" t.status)
        (λ _.
          Hoare-bind
            (Hoare-after {Q' = λ a s. View Q s} {F' = View Q} (λ a s q. q) (λ s q. q)
              (attempt-Keeps (
                Hoare-after (λ a s q. q) (λ s q. q.0)
                  (put_task-Hoare (With Q (λ tasks active closed. is_running t.id active ≡ false)) Q
                    _ (λ tasks active closed q. inv.puts _ tasks active closed q.0 q.1)))))
            λ _.
              Hoare-bind
                (Still-Hoare Q
                  (Still-attempt (Still-event id (codes "task_state") (codes "interrupted"))))
                λ _. Hoare-pure tt (λ s q. q))
        (λ _. Hoare-pure tt (λ s q. q.0))

  cancel_found-Keeps :
      (id : Bytes) (o : Option Run)
      → Hoare
          (View (With Q (λ tasks active closed. find_run id active ≡ o)))
          (cancel_found id o)
          (λ _. View Q)
          (View Q)
  unfolding cancel_found
  cancel_found-Keeps id (some r) =
      Hoare-before {P' = View Q} (λ s q. q.0) (on_run-Keeps id cancelled_run (λ r. refl))
  cancel_found-Keeps id none =
      Hoare-bind
        (attempt-Hoare (
          Hoare-after
            (λ t s q.
              let same = find_task-id id s.db.tasks t q.1 in
              (q.0.0, rw same (find_run-none id s.active q.0.1)))
            (λ s q. q.0)
            (load_task-Hoare (With Q (λ tasks active closed. find_run id active ≡ none)) id)))
        (break_off-Keeps id)

  pub cancel-Keeps : (id : Bytes) → Keeps Q (cancel id)
  unfolding cancel
  cancel-Keeps id = Hoare-gets (λ s. find_run id s.active) (cancel_found-Keeps id)
