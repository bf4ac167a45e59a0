-- ===== src/Store/Once.antt =====
-- `Claim` says of a call once that it is to be made, whatever happens in between.
use mathlib.Core.Path.{subst}
use nex_shell.Prelude.{
  ℕ, ◌≡◌, ◌≢◌, refl, sym, ◌∙◌, ap, Bool, true, not, Option, none, some, List, [], ◌∷◌, Bytes,
  bytes_equal, bytes_equal→eq, Bool-cases, inl, inr, Result, ok, err, Post, Hoare, Hoare-pure,
  Hoare-fail, Hoare-if, Hoare-bind, Hoare-gets, Hoare-before,
}
use nex_shell.Agent.Types.{Request, Task, Encoders, request_digest}
use nex_shell.Store.{
  Fault, Execution, Row, Db, Action, same_call, find_call, confirmed, new_row, claim, finish,
  recover, put_task, call_reused, no_rows,
}
use nex_shell.Store.Claims.{
  Sound, owner, owner-find, Grows, Keeps, Keeps-statement, Keeps-insert, Keeps-claim, Keeps-finish,
  Keeps-recover, Keeps-put_task,
}

-- What may happen to the database between two claims, on any answers of it.
pub data Step (encoders : Encoders) : Db → Db → Type 0 where
  claims :
      (id : Bytes) (now : ℕ) (req : Request) (db : Db)
      → Step encoders db (claim encoders id now req db).1
  finishes : (x : Execution) (db : Db) → Step encoders db (finish x db).1
  stores : (t : Task) (db : Db) → Step encoders db (put_task t db).1
  recovers : (db : Db) → Step encoders db (recover db).1

pub data Steps (encoders : Encoders) : Db → Db → Type 0 where
  done : (db : Db) → Steps encoders db db
  next : (a b c : Db) → Step encoders a b → Steps encoders b c → Steps encoders a c

pub Step-Grows :
    (encoders : Encoders) (a b : Db) → Step encoders a b → Grows a.executions b.executions
Step-Grows encoders a b (claims id now req _) = (Keeps-claim encoders id now req).at a
Step-Grows encoders a b (finishes x _) = (Keeps-finish x).at a
Step-Grows encoders a b (stores t _) = (Keeps-put_task t).at a
Step-Grows encoders a b (recovers _) = Keeps-recover.at a

-- the two things that are known between the claims
pub record Owned (task call id : Bytes) (rows : List Row) : Type 0 where
  pub sound : Sound rows
  pub owned : owner task call rows ≡ some id

Owned-Grows :
    (task call id : Bytes) (a b : List Row)
    → Grows a b
    → Owned task call id a
    → Owned task call id b
Owned-Grows task call id a b g o = record {
  sound = g.sound o.sound;
  owned = g.owners task call id o.owned;
}

Owned-Steps :
    (encoders : Encoders) (task call id : Bytes) (a b : Db)
    → Steps encoders a b
    → Owned task call id a.executions
    → Owned task call id b.executions
Owned-Steps encoders task call id a b (done _) o = o
Owned-Steps encoders task call id a c (next _ b _ s later) o =
    Owned-Steps encoders task call id b c later
      (Owned-Grows task call id a.executions b.executions (Step-Grows encoders a b s) o)

find_call-Sound :
    (task call : Bytes) (rows : List Row) (row : Row)
    → Sound rows
    → find_call task call rows ≡ some row
    → row.payload.id ≡ row.id
unfolding find_call
find_call-Sound task call [] row h e = cc
find_call-Sound task call (r ∷ rows) row h e = elim (Bool-cases (same_call task call r)) [
  | inl s ↦
      let same : r ≡ row = let k = rw s at e in cc in subst (λ q. q.payload.id ≡ q.id) same h.0
  | inr n ↦ find_call-Sound task call rows row h.1 (rw n at e)
]

Keeps-Hoare :
    {A : Type 0} (P : List Row → Type 0) {m : Action A}
    → ((a b : List Row) → Grows a b → P a → P b)
    → Keeps m
    → Hoare (λ db. P db.executions) m (λ _ db. P db.executions) (λ db. Unit {0})
Keeps-Hoare P {m} closed k = record {
  at = λ db p. either (m db) (closed db.executions (m db).1.executions (k.at db) p);
}
  where
    either :
        {A : Type 0} (x : Result Fault A × Db)
        → P x.1.executions
        → Post (λ _ db. P db.executions) (λ db. Unit {0}) x
    either (ok a, db) p = p
    either (err e, db) p = tt

module _ (encoders : Encoders) (id : Bytes) (req : Request) (P : List Row → Type 0)
    (Q : Execution × Bool → List Row → Type 0)
    (finds : (rows : List Row) (row : Row)
      → P rows
      → find_call req.task_id req.call_id rows ≡ some row
      → Q (row.payload, bytes_equal row.payload.id id) rows) where
  confirmed-Hoare :
      (stored : Option Row)
      → Hoare
          (λ db. P db.executions × (find_call req.task_id req.call_id db.executions ≡ stored))
          (confirmed encoders id req stored)
          (λ a db. Q a db.executions)
          (λ db. Unit {0})
  unfolding confirmed
  confirmed-Hoare none = Hoare-fail no_rows (λ db p. tt)
  confirmed-Hoare (some row) =
      Hoare-if (not (bytes_equal row.digest (request_digest encoders req)))
        (λ _. Hoare-fail call_reused (λ db p. tt))
        (λ _.
          Hoare-pure (row.payload, bytes_equal row.payload.id id)
            (λ db p. finds db.executions row p.0 p.1))

  -- what is known from the start of a claim, and of its answer
  claim-Hoare :
      (now : ℕ)
      → ((a b : List Row) → Grows a b → P a → P b)
      → Hoare
          (λ db. P db.executions)
          (claim encoders id now req)
          (λ a db. Q a db.executions)
          (λ db. Unit {0})
  unfolding claim
  claim-Hoare now closed = Hoare-bind (Keeps-Hoare P closed Keeps-statement) λ _.
      Hoare-gets (λ db. find_call req.task_id req.call_id db.executions)
        λ old.
          Hoare-bind
            (Hoare-before {P' = λ db. P db.executions} (λ db p. p.0)
              (Keeps-Hoare P closed (Keeps-insert (new_row encoders id now req) old refl)))
            λ _. Hoare-bind (Keeps-Hoare P closed Keeps-statement) λ _.
              Hoare-gets (λ db. find_call req.task_id req.call_id db.executions) confirmed-Hoare

Post-ok :
    {A : Type 0} (Q : A → Db → Type 0) (x : Result Fault A × Db) (a : A)
    → x.0 ≡ ok a
    → Post Q (λ db. Unit {0}) x
    → Q a x.1
Post-ok Q (ok b, db) a e p = let same : b ≡ a = cc in subst (λ c. Q c db) same p
Post-ok Q (err f, db) a e p = cc

New : Bytes → Request → Execution × Bool → List Row → Type 0
New id req (x, is_new) rows = is_new ≡ true → Owned req.task_id req.call_id id rows

-- A claim that is told to go ahead has recorded the call under its own identifier.
pub claim-Owned :
    (encoders : Encoders) (id : Bytes) (now : ℕ) (req : Request) (db : Db) (x : Execution)
    → Sound db.executions
    → (claim encoders id now req db).0 ≡ ok (x, true)
    → Owned req.task_id req.call_id id (claim encoders id now req db).1.executions
unfolding New
claim-Owned encoders id now req db x sound e =
    let finds : (rows : List Row) (row : Row)
        → Sound rows
        → find_call req.task_id req.call_id rows ≡ some row
        → New id req (row.payload, bytes_equal row.payload.id id) rows =
      λ rows row s f t. record {
        sound = s;
        owned =
            owner-find req.task_id req.call_id rows row f
            ∙ ap some (
                sym (find_call-Sound req.task_id req.call_id rows row s f)
                ∙ bytes_equal→eq row.payload.id id t);
      } in
    Post-ok (λ a d. New id req a d.executions) (claim encoders id now req db) (x, true) e
      ((claim-Hoare encoders id req Sound (New id req) finds now (λ a b g. g.sound)).at db sound)
      refl

Again : Bytes → Bytes → Execution × Bool → List Row → Type 0
Again id id' (x, is_new) rows = is_new ≡ true → id ≡ id'

-- A call that is recorded already is new only to the identifier that it is recorded under.
pub claim-again :
    (encoders : Encoders) (id id' : Bytes) (now : ℕ) (req : Request) (db : Db) (x : Execution)
    → Sound db.executions
    → owner req.task_id req.call_id db.executions ≡ some id
    → (claim encoders id' now req db).0 ≡ ok (x, true)
    → id ≡ id'
unfolding Again
claim-again encoders id id' now req db x sound owned second =
    let finds : (rows : List Row) (row : Row)
        → Owned req.task_id req.call_id id rows
        → find_call req.task_id req.call_id rows ≡ some row
        → Again id id' (row.payload, bytes_equal row.payload.id id') rows =
      λ rows row o f t.
        let mine : some row.id ≡ some id =
          sym (owner-find req.task_id req.call_id rows row f) ∙ o.owned in
        let here : row.id ≡ id = cc in
        sym here
        ∙ sym (find_call-Sound req.task_id req.call_id rows row o.sound f)
        ∙ bytes_equal→eq row.payload.id id' t in
    Post-ok (λ a d. Again id id' a d.executions) (claim encoders id' now req db) (x, true) second
      ((claim-Hoare encoders id' req (Owned req.task_id req.call_id id) (Again id id') finds now
          (Owned-Grows req.task_id req.call_id id)).at
        db (record { sound = sound; owned = owned }))
      refl

-- `Claim` answers once for a call that it is new and to be made: however the database is used in
-- between, by other claims, results, tasks or a restart, and whichever statements fail, a later claim of
-- the same call under another identifier never gets that answer. Before the first claim each row holds
-- the record of its own identifier.
pub claim_once :
    (encoders : Encoders) (id id' : Bytes) (now now' : ℕ) (req req' : Request) (db db' : Db)
    (x x' : Execution)
    → Sound db.executions
    → (claim encoders id now req db).0 ≡ ok (x, true)
    → Steps encoders (claim encoders id now req db).1 db'
    → req'.task_id ≡ req.task_id
    → req'.call_id ≡ req.call_id
    → id ≢ id'
    → (claim encoders id' now' req' db').0 ≢ ok (x', true)
claim_once encoders id id' now now' req req' db db' x x' sound first steps same_task same_call fresh
      second =
    let owned =
      Owned-Steps encoders req.task_id req.call_id id (claim encoders id now req db).1 db' steps
        (claim-Owned encoders id now req db x sound first) in
    let owned' : Owned req'.task_id req'.call_id id db'.executions =
      rw (same_task, same_call) owned in
    fresh (claim-again encoders id id' now' req' db' x' owned'.sound owned'.owned second)
