-- ===== src/Remote/Executor/Tame.antt =====
-- The actions of an execution that lose no record and carry out no further request.
use nex_shell.Prelude.{
  ℕ, ◌-◌, ◌≡◌, refl, ◌∙◌, Bool, true, false, Option, none, some, List, [], ◌∷◌, ◌++◌, ltb,
  if◌then◌else◌, Bytes, length, take, Result, ok, err, pure, fail, gets, modify, continue, ◌>>=◌,
}
use nex_shell.Agent.Types.{Request}
use nex_shell.Remote.Executor.{
  Machine, Trouble, Call, Manager, guard, with_db, stored, tried, next_write, out_write, noted,
  write, operate,
}
use nex_shell.Remote.Executor.Pieces.{operate_all}
use nex_shell.Store.{Fault, Db, Action}
use nex_shell.Store.Claims.{Grows, Grows-refl, Grows-trans, Keeps, Keeps-statement}

pub record Tame {A : Type 0} (act : Call A) : Type 0 where
  pub grows : (m : Machine) → Grows m.db.executions (act m).1.db.executions
  pub sends : (m : Machine) → (act m).1.sent ≡ m.sent

module _ {A : Type 0} where
  pub Tame-pure : (a : A) → Tame (pure a)
  Tame-pure a = record { grows = λ m. Grows-refl m.db.executions; sends = λ m. refl }

  pub Tame-fail : (e : Trouble) → Tame {A = A} (fail e)
  Tame-fail e = record { grows = λ m. Grows-refl m.db.executions; sends = λ m. refl }

  pub Tame-gets : (f : Machine → A) → Tame (gets f)
  Tame-gets f = record { grows = λ m. Grows-refl m.db.executions; sends = λ m. refl }

  pub Tame-if : (b : Bool) {p q : Call A} → Tame p → Tame q → Tame (if b then p else q)
  Tame-if true h k = h
  Tame-if false h k = k

  with_db-Tame :
      (m : Machine) (x : Result Fault A × Db)
      → Grows m.db.executions x.1.executions
      → Grows m.db.executions (with_db x m).1.db.executions × ((with_db x m).1.sent ≡ m.sent)
  with_db-Tame m (ok a, db) g = (g, refl)
  with_db-Tame m (err e, db) g = (g, refl)

  pub Tame-stored : {act : Action A} → Keeps act → Tame (stored act)
  Tame-stored {act} k = record {
    grows = λ m. (with_db-Tame m (act m.db) (k.at m.db)).0;
    sends = λ m. (with_db-Tame m (act m.db) (k.at m.db)).1;
  }

  pub Tame-tried : {act : Action A} → Keeps act → Tame (tried act)
  Tame-tried {act} k = record { grows = λ m. k.at m.db; sends = λ m. refl }

pub Tame-guard : (b : Bool) (e : Trouble) → Tame (guard b e)
Tame-guard b e = Tame-if b (Tame-pure tt) (Tame-fail e)

module _ {A B : Type 0} where
  continue-Tame :
      (m : Machine) (x : Result Trouble A × Machine) (f : A → Call B)
      → Grows m.db.executions x.1.db.executions
      → x.1.sent ≡ m.sent
      → ((a : A) → Tame (f a))
      → Grows m.db.executions (continue x f).1.db.executions × ((continue x f).1.sent ≡ m.sent)
  continue-Tame m (ok a, u) f g s h = (
    Grows-trans m.db.executions u.db.executions (f a u).1.db.executions g ((h a).grows u),
    (h a).sends u ∙ s,
  )
  continue-Tame m (err e, u) f g s h = (g, s)

  pub Tame-bind : {p : Call A} {f : A → Call B} → Tame p → ((a : A) → Tame (f a)) → Tame (p >>= f)
  Tame-bind {p} {f} h k = record {
    grows = λ m. (continue-Tame m (p m) f (h.grows m) (h.sends m) k).0;
    sends = λ m. (continue-Tame m (p m) f (h.grows m) (h.sends m) k).1;
  }

next_write-Tame :
    (list : List (Option (ℕ × Bytes))) (b : Bytes) (m : Machine)
    → Grows m.db.executions (next_write list b m).1.db.executions
      × ((next_write list b m).1.sent ≡ m.sent)
unfolding next_write
next_write-Tame [] b m = (Grows-refl m.db.executions, refl)
next_write-Tame (none ∷ later) b m = (Grows-refl m.db.executions, refl)
next_write-Tame (some e ∷ later) b m = (Grows-refl m.db.executions, refl)

Tame-out_write : (b : Bytes) → Tame (out_write b)
unfolding out_write
Tame-out_write b = record {
  grows = λ m. (next_write-Tame m.writes b m).0;
  sends = λ m. (next_write-Tame m.writes b m).1;
}

Tame-noted :
    (task part : Bytes) (wrote : Option Bytes) (r : Result Fault (Unit {0}))
    → Tame (noted task part wrote r)
unfolding noted
Tame-noted task part wrote (ok u) = record {
  grows = λ m. Grows-refl m.db.executions;
  sends = λ m. refl;
}
Tame-noted task part wrote (err e) = record {
  grows = λ m. Grows-refl m.db.executions;
  sends = λ m. refl;
}

Tame-add : (part : Bytes) → Tame (modify (λ m. record m { prefix = m.prefix ++ part }))
Tame-add part = record { grows = λ m. Grows-refl m.db.executions; sends = λ m. refl }

Tame-write : (task b : Bytes) → Tame (write task b)
unfolding write
Tame-write task b = Tame-bind (Tame-out_write b) λ wrote.
    Tame-bind (Tame-gets (λ m. length m.prefix)) λ size.
      let part = take (32768 - size) b in
      Tame-if (ltb size 32768)
        (Tame-bind (Tame-add part)
          λ _. Tame-bind (Tame-tried Keeps-statement) (Tame-noted task part wrote))
        (Tame-pure wrote)

pub Tame-operate : (manager : Manager) (r : Request) → Tame (operate manager r)
Tame-operate manager r =
    operate_all (λ A act. Tame {A = A} act) (λ A a. Tame-pure a) (λ A B p f h k. Tame-bind h k)
      Tame-write manager r
