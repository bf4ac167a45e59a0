-- ===== src/Remote/Executor/Outcome.antt =====
-- What the result of an execution keeps of the output of the operation.
use mathlib.Core.Bool.{false≢true}
use nex_shell.Prelude.{
  ℕ, zero, suc, ◌-◌, ◌≤◌, ◌≡◌, refl, sym, ◌∙◌, ap, not, ◌&&◌, Option, none, some, List, [], ◌∷◌,
  ◌++◌, append-nil, arith, ltb, if◌then◌else◌, Bool-cases, inl, inr, Bytes, codes, bytes_equal,
  bytes_equal→eq, bytes_equal_refl, ◌⊎◌, ◌≢◌, length, length-append, take, Result, ok, err, pure,
  gets, modify, continue, ◌>>=◌, ◌>>◌,
}
use nex_shell.Agent.Types.{ℤ, Request}
use nex_shell.Remote.Executor.{
  Machine, Trouble, Call, Manager, Env, seen, tried, next_write, out_write, noted, write, End,
  operate, is_negative, is_harmless, status_of, first_error, concluded, run_operation,
}
use nex_shell.Remote.Executor.Pieces.{operate_all}
use nex_shell.Store.{Fault, Execution, Db, statement}

take_more : (n : ℕ) (a b : Bytes) → take n (a ++ b) ≡ take n a ++ take (n - length (take n a)) b
take_more zero a b = refl
take_more (suc n) [] b = let same : suc n ≡ suc n - 0 = omega arith in ap (λ k. take k b) same
take_more (suc n) (x ∷ a) b =
    let same : n - length (take n a) ≡ suc n - suc (length (take n a)) = omega arith in
    ap (◌∷◌ x) (take_more n a b ∙ ap (λ k. take n a ++ take k b) same)

front_more :
    (n : ℕ) (front file b : Bytes)
    → front ≡ take n file
    → take n (file ++ b) ≡ front ++ take (n - length front) b
front_more n front file b e = rw e (take_more n file b)

length-take_most : (n : ℕ) (a : Bytes) → length (take n a) ≤ n
length-take_most zero a = omega arith
length-take_most (suc n) [] = omega arith
length-take_most (suc n) (x ∷ a) = let ih = length-take_most n a in omega arith

-- What is kept of the output is its beginning, as long as nothing has failed.
pub record Kept (m : Machine) : Type 0 where
  pub short : length m.prefix ≤ 32768
  pub front : m.error ≡ none → m.prefix ≡ take 32768 m.file

-- an action that keeps that
record Captures {A : Type 0} (act : Call A) : Type 0 where
  at : (m : Machine) → Kept m → Kept (act m).1

module _ {A B : Type 0} where
  continue-Kept :
      (x : Result Trouble A × Machine) (f : A → Call B)
      → Kept x.1
      → ((a : A) → Captures (f a))
      → Kept (continue x f).1
  continue-Kept (ok a, u) f k h = (h a).at u k
  continue-Kept (err e, u) f k h = k

  Captures-bind :
      {p : Call A} {f : A → Call B} → Captures p → ((a : A) → Captures (f a)) → Captures (p >>= f)
  Captures-bind {p} {f} h k = record { at = λ m q. continue-Kept (p m) f (h.at m q) k }

-- the write of a chunk while there is room for it
room-Kept :
    (task part : Bytes) (wrote : Option Bytes) (x : Result Fault (Unit {0}) × Db) (m : Machine)
    → length m.prefix ≤ 32768
    → (m.error ≡ none → m.prefix ≡ take 32768 m.file)
    → Kept (continue (seen x m) (noted task part wrote)).1
unfolding noted
room-Kept task part wrote (ok u, db) m s f = record { short = s; front = f }
room-Kept task part wrote (err e, db) m s f = record { short = s; front = λ h. cc }

-- the write behind that to the file
rest_of : Bytes → Bytes → Option Bytes → Call (Option Bytes)
rest_of task b wrote = do
  size ← gets (λ m. length m.prefix)
  let part = take (32768 - size) b
  if ltb size 32768
      then (do
        modify (λ m. record m { prefix = m.prefix ++ part })
        told ← tried statement
        noted task part wrote told)
      else pure wrote

rest_of-Kept :
    (task b : Bytes) (wrote : Option Bytes) (m : Machine)
    → length m.prefix ≤ 32768
    → (m.error ≡ none → take 32768 m.file ≡ m.prefix ++ take (32768 - length m.prefix) b)
    → Kept (rest_of task b wrote m).1
unfolding rest_of
rest_of-Kept task b wrote m s f =
    let part = take (32768 - length m.prefix) b in
    let few = length-take_most (32768 - length m.prefix) b in
    let long = length-append m.prefix part in
    elim (Bool-cases (ltb (length m.prefix) 32768)) [
      | inl room ↦ rw room (
          room-Kept task part wrote (statement m.db) (record m { prefix = m.prefix ++ part })
            (omega (arith, few, long)) (λ h. sym (f h)))
      | inr full ↦
          let none_left : 32768 - length m.prefix ≡ 0 = ground arith in
          rw full (record {
            short = s;
            front = λ h. sym (f h ∙ ap (λ k. m.prefix ++ take k b) none_left ∙ append-nil m.prefix);
          })
    ]

write_from-Kept :
    (task b : Bytes) (list : List (Option (ℕ × Bytes))) (m : Machine)
    → Kept m
    → Kept (continue (next_write list b m) (rest_of task b)).1
unfolding next_write
write_from-Kept task b [] m k =
    rest_of-Kept task b none (record m { file = m.file ++ b }) k.short
      (λ h. front_more 32768 m.prefix m.file b (k.front h))
write_from-Kept task b (none ∷ later) m k =
    rest_of-Kept task b none (record m { file = m.file ++ b; writes = later }) k.short
      (λ h. front_more 32768 m.prefix m.file b (k.front h))
write_from-Kept task b (some (n, e) ∷ later) m k =
    rest_of-Kept task b (some e)
      (record m { file = m.file ++ take n b; error = some e; writes = later }) k.short (λ h. cc)

Captures-write : (task b : Bytes) → Captures (write task b)
unfolding write out_write rest_of
Captures-write task b = record { at = λ m k. write_from-Kept task b m.writes m k }

Captures-operate : (manager : Manager) (r : Request) → Captures (operate manager r)
Captures-operate manager r =
    operate_all (λ A act. Captures {A = A} act) (λ A a. record { at = λ m k. k })
      (λ A B p f h k. Captures-bind h k) Captures-write manager r

-- the result that comes of the operation, and the state that it is left in
Came : Env → Request → Execution → Result Trouble Execution × Machine → Type 0
Came env r x (err e, m) = Unit {0}
Came env r x (ok out, m) = (end : End) × (Kept m × (out ≡ concluded env r x end m.error m.prefix))

run_operation-Came :
    (env : Env) (r : Request) (x : Execution) (m : Machine) → Came env r x (run_operation env r x m)
unfolding run_operation Came
run_operation-Came env r x m =
    let fresh : Machine = record m {
      sent = m.sent ++ r ∷ [];
      file = [];
      prefix = [];
      error = none;
    } in
    either (operate env.manager r fresh) (
      (Captures-operate env.manager r).at fresh (record { short = omega arith; front = λ h. refl }))
  where
    either :
        (y : Result Trouble End × Machine)
        → Kept y.1
        → Came env r x (
            continue y λ end. do
              cap_error ← gets (λ u. u.error)
              output ← gets (λ u. u.prefix)
              pure (concluded env r x end cap_error output))
    either (err e, u) k = tt
    either (ok end, u) k = (end, (k, refl))

succeeded_none :
    (op : Bytes) (code : ℤ) (e : Option Bytes) → status_of op code e ≡ codes "succeeded" → e ≡ none
unfolding status_of
succeeded_none op code none h = refl
succeeded_none op code (some e) h = elim (Bool-cases (is_negative code && not (is_harmless op))) [
  | inl y ↦ let k = rw y at h in cc
  | inr n ↦ let k = rw n at h in cc
]

first_error-none : (a b : Option Bytes) → first_error a b ≡ none → a ≡ none
unfolding first_error
first_error-none none b h = refl
first_error-none (some e) b h = cc

Came-ok :
    (env : Env) (r : Request) (x out : Execution) (y : Result Trouble Execution × Machine)
    → Came env r x y
    → y.0 ≡ ok out
    → (end : End) × (Kept y.1 × (out ≡ concluded env r x end y.1.error y.1.prefix))
unfolding Came
Came-ok env r x out (err e, m) c h = cc
Came-ok env r x out (ok o, m) (end, (k, e)) h = let same : o ≡ out = cc in (end, (k, sym same ∙ e))

-- When an execution gives a result, it keeps 32768 bytes of the output at most, and unless the status is another
-- than "succeeded", they are the beginning of what stands in the artifact.
pub run_operation_output :
    (env : Env) (r : Request) (x out : Execution) (m : Machine)
    → (run_operation env r x m).0 ≡ ok out
    → (length out.output ≤ 32768)
      × ((out.status ≢ codes "succeeded")
          ⊎ (out.output ≡ take 32768 (run_operation env r x m).1.file))
unfolding concluded
run_operation_output env r x out m h =
    let u = (run_operation env r x m).1 in
    let (end, (k, e)) =
      Came-ok env r x out (run_operation env r x m) (run_operation-Came env r x m) h in
    let output : out.output ≡ u.prefix = ap (λ o. o.output) e in
    (
      rw output k.short,
      elim (Bool-cases (bytes_equal out.status (codes "succeeded"))) [
        | inl done ↦
            let named = bytes_equal→eq out.status (codes "succeeded") done in
            let calm : u.error ≡ none = first_error-none u.error end.1 (
              succeeded_none r.operation end.0 (first_error u.error end.1)
                (sym (ap (λ o. o.status) e) ∙ named)) in
            inr (output ∙ k.front calm)
        | inr other ↦ inl λ named. false≢true (
            sym other
            ∙ ap (λ t. bytes_equal t (codes "succeeded")) named
            ∙ bytes_equal_refl (codes "succeeded"))
      ],
    )
