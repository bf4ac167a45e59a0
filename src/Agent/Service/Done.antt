-- ===== src/Agent/Service/Done.antt =====
-- What stands behind the status `completed`.
use mathlib.Core.Path.{subst}
use nex_shell.Prelude.{
  ◌≡◌, refl, sym, ◌∙◌, ap, Bool, true, false, not, Option, none, some, List, Bytes, codes,
  bytes_equal, Result, ok, err, Post, Hoare, Hoare-pure, Hoare-if, Hoare-bind, Hoare-gets,
  Hoare-after,
}
use nex_shell.Agent.Policy.{is}
use nex_shell.Agent.Service.{Service, Trouble, with_db, stored, attempt}
use nex_shell.Agent.Service.Finish.{
  error_text, ended, ended_with, readable_verification, is_idle_talk, verified, settle_quiet,
  settle_exit, settle_error, settle_blocked, settle,
}
use nex_shell.Agent.Service.Stopping.{Either, attempt-Hoare}
use nex_shell.Agent.Service.Turn.{RunError, EventState}
use nex_shell.Agent.Types.{Task}
use nex_shell.Agent.Verify.{Verification, has_operations, all_verified}
use nex_shell.Agent.Verify.Complete.{Complete, all_verified_iff}
use nex_shell.Store.{Execution, Row, Fault, Db}
use nex_shell.Store.Queries.{of_task, results, results_lem}

-- the operations and the verifications that are stored
abbrev Holds : Bytes → List Row → (Bytes → Option Verification) → Service → Type 0
Holds id rows v s = (s.db.executions ≡ rows) × (s.verifications id ≡ v)

module _ (id : Bytes) (rows : List Row) (v : Bytes → Option Verification) where
  loaded :
      (s : Service) (x : Result Fault (List Execution) × Db)
      → (x.1.executions ≡ s.db.executions)
        × ((list : List Execution) → x.0 ≡ ok list → list ≡ of_task id s.db.executions)
      → Holds id rows v s
      → Post
          (λ list t. Holds id rows v t × (list ≡ of_task id rows))
          (Holds id rows v)
          (with_db x s)
  loaded s (ok list, db) h q = ((h.0 ∙ q.0, q.1), h.1 list refl ∙ ap (of_task id) q.0)
  loaded s (err e, db) h q = (h.0 ∙ q.0, q.1)

  results-Hoare :
      Hoare
        (Holds id rows v)
        (stored (results id))
        (λ list t. Holds id rows v t × (list ≡ of_task id rows))
        (Holds id rows v)
  results-Hoare = record { at = λ s q. loaded s (results id s.db) (results_lem id s.db) q }

  -- what an attempt to load the results leaves
  abbrev Tried : Option (List Execution) → Service → Type 0
  Tried o s = Holds id rows v s × ((list : List Execution) → o ≡ some list → list ≡ of_task id rows)

  try-Hoare :
      {F : Service → Type 0} → Hoare (Holds id rows v) (attempt (stored (results id))) Tried F
  try-Hoare = Hoare-after either (λ s q. q) (attempt-Hoare results-Hoare)
    where
      either :
          (o : Option (List Execution)) (s : Service)
          → Either (λ list t. Holds id rows v t × (list ≡ of_task id rows)) (Holds id rows v) o s
          → Tried o s
      either none s q = (q, λ list h. cc)
      either (some list) s q = (q.0, λ other h. cc (q.1))

  module _ (readable : Bytes → Bool) where
    abbrev AllDone : Type 0
    AllDone = Complete (of_task id rows) (readable_verification readable v)

    complete :
        (o : Option (List Execution))
        → ((list : List Execution) → o ≡ some list → list ≡ of_task id rows)
        → all_verified o (readable_verification readable v) ≡ true
        → AllDone
    complete none f h = unfold all_verified in cc
    complete (some list) f h =
        let same = f list refl in
        (all_verified_iff (of_task id rows) (readable_verification readable v)).0
          (subst (λ l. all_verified (some l) (readable_verification readable v) ≡ true) same h)

    verified-Hoare :
        {F : Service → Type 0}
        → Hoare (Holds id rows v) (verified readable id) (λ b s. b ≡ true → AllDone) F
    unfolding verified
    verified-Hoare = Hoare-bind try-Hoare λ list.
        Hoare-gets (λ s. s.verifications id)
          λ u. Hoare-pure (all_verified list (readable_verification readable u)) λ s q h.
            let same : u ≡ v = sym q.1 ∙ q.0.0.1 in
            complete list (q.0.1)
              (subst (λ w. all_verified list (readable_verification readable w) ≡ true) same h)

    -- what the result of the end says if it is `completed`
    abbrev IfDone : Type 0 → Task → Service → Type 0
    IfDone P out s = is "completed" out.status ≡ true → P

    idle-Hoare :
        {F : Service → Type 0} (t : Task)
        → Hoare (Holds id rows v) (is_idle_talk id t) (λ b. Holds id rows v) F
    unfolding is_idle_talk
    idle-Hoare t =
        Hoare-if (is "conversation" t.mode)
          (λ _. Hoare-bind try-Hoare λ list. Hoare-pure (not (has_operations list)) (λ s q. q.0))
          (λ _. Hoare-pure false (λ s q. q))

    quiet-Hoare :
        {F : Service → Type 0} (t : Task)
        → Hoare (Holds id rows v) (settle_quiet readable id t) (IfDone AllDone) F
    unfolding settle_quiet bytes_equal
    quiet-Hoare t = Hoare-bind (idle-Hoare t) λ talk.
        Hoare-if talk (λ _. Hoare-pure (ended t (codes "ready")) (λ s q h. cc))
          (λ _. Hoare-bind verified-Hoare λ done.
            Hoare-if done (λ e. Hoare-pure (ended t (codes "completed")) (λ s q h. q e))
              (λ _. Hoare-pure (ended t (codes "needs_verification")) (λ s q h. cc)))

    -- the run came to its end by itself, without an error
    abbrev AndQuiet : Option RunError → Option RunError → Type 0
    AndQuiet error exit = (error ≡ none) × ((exit ≡ none) × AllDone)

    exit-Hoare :
        {F : Service → Type 0} (t : Task) (exit : Option RunError)
        → Hoare
            (Holds id rows v)
            (settle_exit readable id t exit)
            (IfDone ((exit ≡ none) × AllDone))
            F
    unfolding settle_exit bytes_equal
    exit-Hoare t none = Hoare-after (λ out s q h. (refl, q h)) (λ s q. q) (quiet-Hoare t)
    exit-Hoare t (some e) =
        Hoare-pure (ended_with t (codes "interrupted") (error_text e)) (λ s q h. cc)

    error-Hoare :
        {F : Service → Type 0} (t : Task) (error exit : Option RunError)
        → Hoare
            (Holds id rows v)
            (settle_error readable id t error exit)
            (IfDone (AndQuiet error exit))
            F
    unfolding settle_error bytes_equal
    error-Hoare t none exit = Hoare-after (λ out s q h. (refl, q h)) (λ s q. q) (exit-Hoare t exit)
    error-Hoare t (some e) exit =
        Hoare-pure (ended_with t (codes "failed") (error_text e)) (λ s q h. cc)

    blocked-Hoare :
        {F : Service → Type 0} (t : Task) (text : Option Bytes) (error exit : Option RunError)
        → Hoare
            (Holds id rows v)
            (settle_blocked readable id t text error exit)
            (IfDone (AndQuiet error exit))
            F
    unfolding settle_blocked bytes_equal
    blocked-Hoare t none error exit = error-Hoare t error exit
    blocked-Hoare t (some text) error exit =
        Hoare-pure (ended_with t (codes "blocked") text) (λ s q h. cc)

    settle-Hoare :
        {F : Service → Type 0} (t : Task) (state : EventState) (ctx_err : Bool)
        (exit : Option RunError)
        → Hoare
            (Holds id rows v)
            (settle readable id t state ctx_err exit)
            (IfDone ((state.pending ≡ false) × ((ctx_err ≡ false) × AndQuiet state.error exit)))
            F
    unfolding settle bytes_equal
    settle-Hoare t state ctx_err exit =
        Hoare-if state.pending (λ _. Hoare-pure (ended t (codes "awaiting_approval")) (λ s q h. cc))
          (λ p.
            Hoare-if ctx_err (λ _. Hoare-pure (ended t (codes "interrupted")) (λ s q h. cc))
              (λ c.
                Hoare-after (λ out s q h. (p, (c, q h))) (λ s q. q)
                  (blocked-Hoare t _ state.error exit)))

settled_post :
    (P : Type 0) (x : Result Trouble Task × Service) (out : Task)
    → x.0 ≡ ok out
    → Post (λ t s. is "completed" t.status ≡ true → P) (λ s. Unit {0}) x
    → out.status ≡ codes "completed"
    → P
settled_post P (err e, s) out h p c = cc
settled_post P (ok t, s) out h p c =
    let same : t ≡ out = cc in p (rw (same, c) (unfold bytes_equal in refl))

-- A run leaves its task completed only if it waits for no approval, was not cancelled and ended without any
-- error, there is an operation on a server, none is open, and on each server the last one is what the stored
-- verification names.
pub settle_completed :
    (readable : Bytes → Bool) (id : Bytes) (t out : Task) (state : EventState) (ctx_err : Bool)
    (exit : Option RunError) (s : Service)
    → (settle readable id t state ctx_err exit s).0 ≡ ok out
    → out.status ≡ codes "completed"
    → (state.pending ≡ false)
      × ((ctx_err ≡ false)
          × ((state.error ≡ none)
              × ((exit ≡ none)
                  × Complete
                      (of_task id s.db.executions)
                      (readable_verification readable (s.verifications id)))))
settle_completed readable id t out state ctx_err exit s h c =
    settled_post _ (settle readable id t state ctx_err exit s) out h
      ((settle-Hoare id s.db.executions (s.verifications id) readable t state ctx_err exit).at s
        (refl, refl))
      c
