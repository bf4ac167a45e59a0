-- ===== src/Store/Claims.antt =====
-- A call keeps the identifier that it was recorded under.
use nex_shell.Prelude.{
  ℕ, ◌≡◌, refl, sym, ◌∙◌, Bool, true, false, not, Option, none, some, List, [], ◌∷◌, ◌++◌,
  if◌then◌else◌, Bytes, All, All-append, continue, bytes_equal, bytes_equal→eq, Bool-cases, inl,
  inr, Result, ok, err, pure, fail, gets, modify, ◌>>=◌,
}
use nex_shell.Agent.Types.{Request, Task, Encoders, request_digest}
use nex_shell.Store.{
  Fault, Execution, Row, Db, Action, answer, statement, same_call, find_call, has_id, insert,
  confirmed, new_row, claim, update, finish, finish_all, recover, pending, put_task, put_all,
  call_reused, no_rows, id_taken, empty_id, interrupted, unknown,
}

-- Each row holds the record of its own identifier.
abbrev pub Sound : List Row → Type 0
Sound rows = All (λ row. row.payload.id ≡ row.id) rows

unfoldable pub owner_of : Option Row → Option Bytes
owner_of none = none
owner_of (some row) = some row.id

-- the identifier under which a call is recorded
unfoldable pub owner : Bytes → Bytes → List Row → Option Bytes
owner task call rows = owner_of (find_call task call rows)

-- No record is lost, and every call stays with the identifier that it was recorded under.
pub record Grows (before after : List Row) : Type 0 where
  pub sound : Sound before → Sound after
  pub owners :
      (task call id : Bytes) → owner task call before ≡ some id → owner task call after ≡ some id

pub Grows-refl : (rows : List Row) → Grows rows rows
Grows-refl rows = record { sound = λ h. h; owners = λ task call id h. h }

pub Grows-trans : (a b c : List Row) → Grows a b → Grows b c → Grows a c
Grows-trans a b c p q = record {
  sound = λ h. q.sound (p.sound h);
  owners = λ task call id h. q.owners task call id (p.owners task call id h);
}

owner-append :
    (task call id : Bytes) (rows : List Row) (row : Row)
    → owner task call rows ≡ some id
    → owner task call (rows ++ row ∷ []) ≡ some id
unfolding owner owner_of find_call
owner-append task call id [] row h = cc
owner-append task call id (r ∷ rows) row h = elim (Bool-cases (same_call task call r)) [
  | inl s ↦ rw s (rw s at h)
  | inr n ↦ rw n (owner-append task call id rows row (rw n at h))
]

Grows-append :
    (rows : List Row) (row : Row) → row.payload.id ≡ row.id → Grows rows (rows ++ row ∷ [])
Grows-append rows row e = record {
  sound = λ h. All-append (λ r. r.payload.id ≡ r.id) rows (row ∷ []) h (e, tt);
  owners = λ task call id h. owner-append task call id rows row h;
}

update-Sound : (x : Execution) (rows : List Row) → Sound rows → Sound (update x rows)
unfolding update
update-Sound x [] h = tt
update-Sound x (row ∷ rows) h = elim (Bool-cases (bytes_equal row.id x.id)) [
  | inl s ↦ rw s (sym (bytes_equal→eq row.id x.id s), update-Sound x rows h.1)
  | inr n ↦ rw n (h.0, update-Sound x rows h.1)
]

owner-update :
    (x : Execution) (task call : Bytes) (rows : List Row)
    → owner task call (update x rows) ≡ owner task call rows
unfolding owner owner_of find_call update
owner-update x task call [] = refl
owner-update x task call (row ∷ rows) = elim (Bool-cases (bytes_equal row.id x.id)) [
  | inl s ↦ elim (Bool-cases (same_call task call row)) [
    | inl t ↦ rw (s, t) refl
    | inr n ↦ rw (s, n) (owner-update x task call rows)
  ]
  | inr d ↦ elim (Bool-cases (same_call task call row)) [
    | inl t ↦ rw (d, t) refl
    | inr n ↦ rw (d, n) (owner-update x task call rows)
  ]
]

-- an action that loses no record
pub record Keeps {A : Type 0} (m : Action A) : Type 0 where
  pub at : (db : Db) → Grows db.executions (m db).1.executions

module _ {A : Type 0} where
  Keeps-pure : (a : A) → Keeps (pure a)
  Keeps-pure a = record { at = λ db. Grows-refl db.executions }

  Keeps-fail : (e : Fault) → Keeps (fail {A = A} e)
  Keeps-fail e = record { at = λ db. Grows-refl db.executions }

  Keeps-gets : (f : Db → A) → Keeps (gets f)
  Keeps-gets f = record { at = λ db. Grows-refl db.executions }

  Keeps-if : (b : Bool) {m n : Action A} → Keeps m → Keeps n → Keeps (if b then m else n)
  Keeps-if true p q = p
  Keeps-if false p q = q

module _ {A B : Type 0} where
  continue-Keeps :
      (rows : List Row) (x : Result Fault A × Db) (f : A → Action B)
      → Grows rows x.1.executions
      → ((a : A) → Keeps (f a))
      → Grows rows (continue x f).1.executions
  continue-Keeps rows (ok a, db) f p q =
      Grows-trans rows db.executions (f a db).1.executions p ((q a).at db)
  continue-Keeps rows (err e, db) f p q = p

  Keeps-bind :
      {m : Action A} {f : A → Action B} → Keeps m → ((a : A) → Keeps (f a)) → Keeps (m >>= f)
  Keeps-bind {m} {f} p q = record { at = λ db. continue-Keeps db.executions (m db) f (p.at db) q }

answer-Grows :
    (list : List (Option Fault)) (db : Db) → Grows db.executions (answer list db).1.executions
unfolding answer
answer-Grows [] db = Grows-refl db.executions
answer-Grows (none ∷ later) db = Grows-refl db.executions
answer-Grows (some e ∷ later) db = Grows-refl db.executions

pub Keeps-statement : Keeps statement
unfolding statement
Keeps-statement = record { at = λ db. answer-Grows db.answers db }

Keeps-append :
    (row : Row)
    → row.payload.id ≡ row.id
    → Keeps (modify (λ db. record db { executions = db.executions ++ row ∷ [] }))
Keeps-append row e = record { at = λ db. Grows-append db.executions row e }

pub Keeps-insert : (row : Row) (old : Option Row) → row.payload.id ≡ row.id → Keeps (insert row old)
unfolding insert
Keeps-insert row (some old) e = Keeps-pure tt
Keeps-insert row none e =
    Keeps-bind (Keeps-gets (λ db. has_id row.id db.executions))
      λ taken. Keeps-if taken (Keeps-fail id_taken) (Keeps-append row e)

Keeps-confirmed :
    (encoders : Encoders) (id : Bytes) (req : Request) (stored : Option Row)
    → Keeps (confirmed encoders id req stored)
unfolding confirmed
Keeps-confirmed encoders id req none = Keeps-fail no_rows
Keeps-confirmed encoders id req (some row) =
    Keeps-if (not (bytes_equal row.digest (request_digest encoders req))) (Keeps-fail call_reused)
      (Keeps-pure (row.payload, bytes_equal row.payload.id id))

pub Keeps-claim :
    (encoders : Encoders) (id : Bytes) (now : ℕ) (req : Request) → Keeps (claim encoders id now req)
unfolding claim
Keeps-claim encoders id now req = Keeps-bind Keeps-statement λ _.
    Keeps-bind (Keeps-gets (λ db. find_call req.task_id req.call_id db.executions)) λ old.
      Keeps-bind (Keeps-insert (new_row encoders id now req) old refl) λ _.
        Keeps-bind Keeps-statement λ _.
          Keeps-bind (Keeps-gets (λ db. find_call req.task_id req.call_id db.executions))
            (Keeps-confirmed encoders id req)

pub Keeps-finish : (x : Execution) → Keeps (finish x)
unfolding finish
Keeps-finish x = Keeps-bind Keeps-statement λ _. record {
  at = λ db. record {
    sound = update-Sound x db.executions;
    owners = λ task call id h. owner-update x task call db.executions ∙ h;
  };
}

Keeps-finish_all : (list : List Execution) → Keeps (finish_all list)
unfolding finish_all
Keeps-finish_all [] = Keeps-pure tt
Keeps-finish_all (x ∷ list) = Keeps-bind (Keeps-finish (unknown x)) λ _. Keeps-finish_all list

pub Keeps-put_task : (t : Task) → Keeps (put_task t)
unfolding put_task
Keeps-put_task t =
    Keeps-if (bytes_equal t.id []) (Keeps-fail empty_id)
      (Keeps-bind Keeps-statement λ _. record { at = λ db. Grows-refl db.executions })

Keeps-put_all : (tasks : List Task) → Keeps (put_all tasks)
unfolding put_all
Keeps-put_all [] = Keeps-pure tt
Keeps-put_all (t ∷ tasks) = Keeps-bind (Keeps-put_task (interrupted t)) λ _. Keeps-put_all tasks

pub Keeps-recover : Keeps recover
unfolding recover
Keeps-recover = Keeps-bind Keeps-statement λ _.
    Keeps-bind (Keeps-gets (λ db. pending db.executions)) λ list.
      Keeps-bind (Keeps-finish_all list)
        λ _. Keeps-bind Keeps-statement λ _. Keeps-bind (Keeps-gets (λ db. db.tasks)) Keeps-put_all

pub owner-find :
    (task call : Bytes) (rows : List Row) (row : Row)
    → find_call task call rows ≡ some row
    → owner task call rows ≡ some row.id
unfolding owner owner_of
owner-find task call rows row f = rw f refl
