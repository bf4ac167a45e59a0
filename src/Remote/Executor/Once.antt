-- ===== src/Remote/Executor/Once.antt =====
-- However often it is asked for, a call of a tool is carried out at most once.
use mathlib.Core.Bool.{false≢true}
use nex_shell.Prelude.{
  ℕ, ◌+◌, ◌≤◌, ◌≡◌, ◌⊎◌, inl, inr, refl, sym, ◌∙◌, ap, Bool, true, false, not, ◌||◌, ◌&&◌, none,
  some, List, [], ◌∷◌, ◌++◌, arith, if◌then◌else◌, Bool-cases, Bytes, codes, bytes_equal,
  bytes_equal→eq, bytes_equal_refl, Result, ok, err, modify, Post, Hoare, Hoare-bind, Hoare-before,
  Hoare-after, Hoare-pure,
}
use nex_shell.Agent.Gate.{mutates}
use nex_shell.Agent.Types.{Request, Encoders}
use nex_shell.Remote.Executor.{
  Machine, Trouble, no_identity, cancelled, unauthorized, no_artifact, Call, Env, guard, with_db,
  stored, concluded, run_operation, run_with, run_claimed, has_identity, execute,
}
use nex_shell.Remote.Executor.Tame.{
  Tame, Tame-pure, Tame-fail, Tame-gets, Tame-stored, Tame-tried, Tame-bind, Tame-operate,
}
use nex_shell.Store.{Fault, Execution, Row, Db, has_id, same_call, find_call, claim}
use nex_shell.Store.Claims.{Sound, owner, owner_of, Grows, Keeps-claim, Keeps-finish}
use nex_shell.Store.Once.{Owned, claim-Owned, claim-again, Step, Step-Grows}

abbrev pub is_call : Bytes → Bytes → Request → Bool
is_call task call r = bytes_equal r.task_id task && bytes_equal r.call_id call

-- how often a call of a task was carried out
unfoldable pub times : Bytes → Bytes → List Request → ℕ
times task call [] = 0
times task call (r ∷ sent) = (if is_call task call r then 1 else 0) + times task call sent

times-append :
    (task call : Bytes) (sent : List Request) (r : Request)
    → times task call (sent ++ r ∷ [])
      ≡ times task call sent + (if is_call task call r then 1 else 0)
unfolding times
times-append task call [] r = omega arith
times-append task call (q ∷ sent) r = let ih = times-append task call sent r in rw ih (omega arith)

owner-has_id :
    (task call id : Bytes) (rows : List Row)
    → owner task call rows ≡ some id
    → has_id id rows ≡ true
unfolding owner owner_of find_call has_id
owner-has_id task call id [] h = cc
owner-has_id task call id (row ∷ rows) h = elim (Bool-cases (same_call task call row)) [
  | inl s ↦
      let k = rw s at h in let same : row.id ≡ id = cc in rw same (rw (bytes_equal_refl id) refl)
  | inr n ↦ let ih = owner-has_id task call id rows (rw n at h) in rw ih (ground arith)
]

module _ (task call : Bytes) where
  Recorded : List Row → Type 0
  Recorded rows = (id : Bytes) × (owner task call rows ≡ some id)

  -- The call was carried out not yet, or once, and then it is recorded.
  Single : Machine → Type 0
  Single m =
      Sound m.db.executions
      × ((times task call m.sent ≡ 0) ⊎ ((times task call m.sent ≡ 1) × Recorded m.db.executions))

  -- what is known of the call before a request is carried out
  Cleared : Request → Machine → Type 0
  Cleared r m =
      Single m
      × (is_call task call r ≡ true → (times task call m.sent ≡ 0) × Recorded m.db.executions)

  Single-Grows :
      (m u : Machine)
      → Grows m.db.executions u.db.executions
      → u.sent ≡ m.sent
      → Single m
      → Single u
  unfolding Single Recorded
  Single-Grows m u g s (sound, inl z) = (g.sound sound, inl (ap (times task call) s ∙ z))
  Single-Grows m u g s (sound, inr (one, (id, e))) =
      (g.sound sound, inr (ap (times task call) s ∙ one, (id, g.owners task call id e)))

  Cleared-Grows :
      (r : Request) (m u : Machine)
      → Grows m.db.executions u.db.executions
      → u.sent ≡ m.sent
      → Cleared r m
      → Cleared r u
  unfolding Cleared Recorded
  Cleared-Grows r m u g s (single, clear) = (
    Single-Grows m u g s single,
    λ same.
        let (z, (id, e)) = clear same in
        (ap (times task call) s ∙ z, (id, g.owners task call id e)),
  )

  tame_post :
      {A : Type 0} (P : Machine → Type 0) (x : Result Trouble A × Machine)
      → P x.1
      → Post (λ _. P) P x
  tame_post P (ok a, u) p = p
  tame_post P (err e, u) p = p

  Tame-Single : {A : Type 0} {act : Call A} → Tame act → Hoare Single act (λ _. Single) Single
  Tame-Single {act} t = record {
    at = λ m p. tame_post Single (act m) (Single-Grows m (act m).1 (t.grows m) (t.sends m) p);
  }

  Tame-Cleared :
      {A : Type 0} {act : Call A} (r : Request)
      → Tame act
      → Hoare (Cleared r) act (λ _. Cleared r) Single
  unfolding Cleared
  Tame-Cleared {act} r t =
      Hoare-after (λ a m p. p) (λ m p. p.0)
        (record {
          at = λ m p.
              tame_post (Cleared r) (act m) (Cleared-Grows r m (act m).1 (t.grows m) (t.sends m) p);
        })

  begin-Single :
      (r : Request)
      → Hoare {E = Trouble}
          (Cleared r)
          (modify (λ m. record m { sent = m.sent ++ r ∷ []; file = []; prefix = []; error = none }))
          (λ _. Single)
          Single
  unfolding Cleared Single Recorded
  begin-Single r = record {
    at = λ m p.
        let more = times-append task call m.sent r in
        elim (Bool-cases (is_call task call r)) [
          | inl y ↦ let (z, e) = p.1 y in (p.0.0, inr (more ∙ (rw (y, z) refl), e))
          | inr n ↦ elim p.0.1 [
            | inl z ↦ (p.0.0, inl (more ∙ (rw (n, z) refl)))
            | inr (one, e) ↦ (p.0.0, inr (more ∙ (rw (n, one) refl), e))
          ]
        ];
  }

  run_operation-Single :
      (env : Env) (r : Request) (x : Execution)
      → Hoare (Cleared r) (run_operation env r x) (λ _. Single) Single
  unfolding run_operation
  run_operation-Single env r x = Hoare-bind (begin-Single r) λ _. Tame-Single (
      Tame-bind (Tame-operate env.manager r) λ end.
        Tame-bind (Tame-gets (λ m. m.error)) λ cap_error.
          Tame-bind (Tame-gets (λ m. m.prefix))
            λ output. Tame-pure (concluded env r x end cap_error output))

  run_with-Single :
      (env : Env) (r : Request) (x : Execution) (artifact : Result Bytes Bytes)
      → Hoare (Cleared r) (run_with env r x artifact) (λ _. Single) Single
  unfolding run_with Cleared
  run_with-Single env r x (err e) =
      Hoare-before (λ m p. p.0)
        (Tame-Single (
          Tame-bind (Tame-tried (Keeps-finish (record x { status = codes "failed"; error = e })))
            λ _. Tame-fail (no_artifact e)))
  run_with-Single env r x (ok path) =
      Hoare-bind (Tame-Cleared r (Tame-stored (Keeps-finish (record x { artifact = path })))) λ _.
        Hoare-bind (run_operation-Single env r (record x { artifact = path })) λ out.
          Hoare-bind (Tame-Single (Tame-stored (Keeps-finish out))) λ _. Tame-Single (Tame-pure out)

  run_claimed-Single :
      (env : Env) (r : Request) (claimed : Execution × Bool)
      → Hoare
          (λ m. Single m × (claimed.1 ≡ true → Cleared r m))
          (run_claimed env r claimed)
          (λ _. Single)
          Single
  unfolding run_claimed
  run_claimed-Single env r (x, false) = Hoare-pure x (λ m p. p.0)
  run_claimed-Single env r (x, true) =
      Hoare-before (λ m p. p.1 refl) (run_with-Single env r x (env.artifact x.id))

  claim-Cleared :
      (env : Env) (r : Request)
      → Hoare
          (λ m. Single m × (has_id env.fresh_id m.db.executions ≡ false))
          (stored (claim env.encoders env.fresh_id env.now r))
          (λ claimed m. Single m × (claimed.1 ≡ true → Cleared r m))
          Single
  unfolding Cleared Single Recorded
  claim-Cleared env r = record {
    at = λ m p.
        either m (claim env.encoders env.fresh_id env.now r m.db) p.0 p.1
          ((Keeps-claim env.encoders env.fresh_id env.now r).at m.db)
          (λ x e. claim-Owned env.encoders env.fresh_id env.now r m.db x p.0.0 e)
          (λ x e id o. claim-again env.encoders id env.fresh_id env.now r m.db x p.0.0 o e);
  }
    where
      either :
          (m : Machine) (x : Result Fault (Execution × Bool) × Db)
          → Single m
          → has_id env.fresh_id m.db.executions ≡ false
          → Grows m.db.executions x.1.executions
          → ((y : Execution)
              → x.0 ≡ ok (y, true)
              → Owned r.task_id r.call_id env.fresh_id x.1.executions)
          → ((y : Execution)
              → x.0 ≡ ok (y, true)
              → (id : Bytes) → owner r.task_id r.call_id m.db.executions ≡ some id
              → id ≡ env.fresh_id)
          → Post (λ claimed u. Single u × (claimed.1 ≡ true → Cleared r u)) Single (with_db x m)
      either m (err e, db) s fresh g owned again = Single-Grows m (record m { db = db }) g refl s
      either m (ok (y, false), db) s fresh g owned again =
          (Single-Grows m (record m { db = db }) g refl s, λ h. cc)
      either m (ok (y, true), db) s fresh g owned again =
          let after : Single (record m { db = db }) =
            Single-Grows m (record m { db = db }) g refl s in
          (
            after,
            λ _. (
              after,
              λ same.
                  let task_eq : r.task_id ≡ task = bytes_equal→eq r.task_id task (ground arith) in
                  let call_eq : r.call_id ≡ call = bytes_equal→eq r.call_id call (ground arith) in
                  let mine : owner task call db.executions ≡ some env.fresh_id =
                    rw (← task_eq, ← call_eq) (owned y refl).owned in
                  elim s.1 [
                    | inl z ↦ (z, (env.fresh_id, mine))
                    | inr (one, (id, e)) ↦
                        let old : id ≡ env.fresh_id = again y refl id (rw (task_eq, call_eq) e) in
                        let there = owner-has_id task call id m.db.executions e in
                        let k = rw old at there in absurd (false≢true (sym fresh ∙ k))
                  ],
            ),
          )

  execute-Single :
      (env : Env) (r : Request)
      → Hoare
          (λ m. Single m × (has_id env.fresh_id m.db.executions ≡ false))
          (execute env r)
          (λ _. Single)
          Single
  unfolding execute
  execute-Single env r = Hoare-bind (fresh_guard (has_identity r) no_identity) λ _.
      Hoare-bind (fresh_guard (not (mutates r.operation) || env.locked) cancelled) λ _.
        Hoare-bind (fresh_guard env.authorized unauthorized)
          λ _. Hoare-bind (claim-Cleared env r) (run_claimed-Single env r)
    where
      fresh_guard :
          (b : Bool) (e : Trouble)
          → Hoare
              (λ m. Single m × (has_id env.fresh_id m.db.executions ≡ false))
              (guard b e)
              (λ _ m. Single m × (has_id env.fresh_id m.db.executions ≡ false))
              Single
      fresh_guard true e = Hoare-pure tt (λ m p. p)
      fresh_guard false e = record { at = λ m p. p.0 }

-- An execution, whose identifier is new, or another use of the database.
pub data Move : Machine → Machine → Type 0 where
  executes :
      (env : Env) (r : Request) (m : Machine)
      → has_id env.fresh_id m.db.executions ≡ false
      → Move m (execute env r m).1
  uses :
      (encoders : Encoders) (db : Db) (m : Machine)
      → Step encoders m.db db
      → Move m (record m { db = db })

pub data Moves : Machine → Machine → Type 0 where
  done : (m : Machine) → Moves m m
  next : (m u v : Machine) → Move m u → Moves u v → Moves m v

ended :
    {A : Type 0} (P : Machine → Type 0) (x : Result Trouble A × Machine) → Post (λ _. P) P x → P x.1
ended P (ok a, u) p = p
ended P (err e, u) p = p

Move-Single :
    (task call : Bytes) (m u : Machine) → Move m u → Single task call m → Single task call u
Move-Single task call m u (executes env r _ fresh) s =
    ended (Single task call) (execute env r m) ((execute-Single task call env r).at m (s, fresh))
Move-Single task call m u (uses encoders db _ step) s =
    Single-Grows task call m (record m { db = db }) (Step-Grows encoders m.db db step) refl s

Moves-Single :
    (task call : Bytes) (m u : Machine) → Moves m u → Single task call m → Single task call u
Moves-Single task call m u (done _) s = s
Moves-Single task call m v (next _ u _ first later) s =
    Moves-Single task call u v later (Move-Single task call m u first s)

-- A call of a task is carried out at most once, however often it is executed, each time under an identifier that
-- no row has, and however the database is used in between, a restart included. At the start nothing was carried
-- out, and each row holds the record of its own identifier.
pub sent_once :
    (task call : Bytes) (m m' : Machine)
    → m.sent ≡ []
    → Sound m.db.executions
    → Moves m m'
    → times task call m'.sent ≤ 1
unfolding Single
sent_once task call m m' e sound moves =
    elim (Moves-Single task call m m' moves
      (sound, inl (unfold times in ap (times task call) e))).1 [
        | inl z ↦ omega arith
        | inr (one, rest) ↦ omega arith
      ]
