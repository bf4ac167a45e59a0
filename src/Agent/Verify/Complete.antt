-- ===== src/Agent/Verify/Complete.antt =====
-- When `allVerified` says so: the last operation on each host has been verified.
use nex_shell.Prelude.{
  ◌≡◌, ◌↔◌, ◌⊎◌, refl, sym, ◌∙◌, ap, Bool, true, false, not, ◌&&◌, Option, none, some, List, [],
  ◌∷◌, arith, if◌then◌else◌, Bool-cases, inl, inr, Bytes, bytes_equal, bytes_equal→eq,
  bytes_equal_refl,
}
use nex_shell.Agent.Gate.{unsettled}
use nex_shell.Agent.Policy.{is_local}
use nex_shell.Agent.Verify.{
  Verification, is_open, any_operation, has_operations, set_last, last_results, verifies,
  each_verified, checked, all_verified,
}
use nex_shell.Store.{Execution}

abbrev or_else : {A : Type 0} → Option A → Option A → Option A
or_else none b = b
or_else (some a) b = some a

or_else_if :
    (a e : Option Execution) (b : Bool) (r : Execution)
    → or_else a (if b then some r else e) ≡ or_else (or_else a (if b then some r else none)) e
or_else_if none e true r = refl
or_else_if none e false r = refl
or_else_if (some x) e b r = refl

-- the last operation on a host: what is done on this machine is none
unfoldable pub last_on : Bytes → List Execution → Option Execution
last_on host [] = none
last_on host (r ∷ results) = or_else (last_on host results) (
    if not (is_local r.request.operation) && bytes_equal r.request.host_id host
    then some r
    else none)

entry : Bytes → List (Bytes × Execution) → Option Execution
entry host [] = none
entry host ((key, r) ∷ last) =
    let rest = entry host last in if bytes_equal key host then some r else rest

abbrev Distinct : List (Bytes × Execution) → Type 0
Distinct [] = Unit {0}
Distinct ((key, r) ∷ last) = (entry key last ≡ none) × Distinct last

entry-set_last :
    (host : Bytes) (r : Execution) (last : List (Bytes × Execution))
    → entry host (set_last r last)
      ≡ (if bytes_equal r.request.host_id host then some r else entry host last)
unfolding entry set_last
entry-set_last host r [] = refl
entry-set_last host r ((key, x) ∷ last) = elim (Bool-cases (bytes_equal key r.request.host_id)) [
  | inl s ↦
      let same = bytes_equal→eq key r.request.host_id s in
      rw s (
        rw same (elim (Bool-cases (bytes_equal r.request.host_id host)) [
          | inl y ↦ rw y refl
          | inr n ↦ rw n refl
        ]))
  | inr d ↦ rw d (elim (Bool-cases (bytes_equal key host)) [
    | inl k ↦
        let other : bytes_equal r.request.host_id host ≡ false =
          elim (Bool-cases (bytes_equal r.request.host_id host)) [
            | inl y ↦
                let a = bytes_equal→eq key host k in
                let b = bytes_equal→eq r.request.host_id host y in
                let c : bytes_equal key r.request.host_id ≡ true =
                  rw (a, b) (bytes_equal_refl host) in
                cc
            | inr n ↦ n
          ] in
        rw (k, other) refl
    | inr n ↦ rw n (entry-set_last host r last)
  ])
]

set_last-Distinct :
    (r : Execution) (last : List (Bytes × Execution)) → Distinct last → Distinct (set_last r last)
unfolding set_last entry
set_last-Distinct r [] d = (refl, tt)
set_last-Distinct r ((key, x) ∷ last) d = elim (Bool-cases (bytes_equal key r.request.host_id)) [
  | inl s ↦ rw s d
  | inr n ↦ rw n (
    elim (Bool-cases (bytes_equal r.request.host_id key)) [
      | inl y ↦
          let a = bytes_equal→eq r.request.host_id key y in
          let b : bytes_equal key r.request.host_id ≡ true = rw a (bytes_equal_refl key) in cc
      | inr o ↦ entry-set_last key r last ∙ (rw o d.0)
    ],
    set_last-Distinct r last d.1,
  )
]

is_empty : List (Bytes × Execution) → Bool
is_empty [] = true
is_empty (e ∷ last) = false

set_last-filled :
    (r : Execution) (last : List (Bytes × Execution)) → is_empty (set_last r last) ≡ false
unfolding set_last is_empty
set_last-filled r [] = refl
set_last-filled r ((key, x) ∷ last) = elim (Bool-cases (bytes_equal key r.request.host_id)) [
  | inl s ↦ rw s refl
  | inr n ↦ rw n refl
]

record Collected (results : List Execution) (last out : List (Bytes × Execution)) : Type 0 where
  entries : (host : Bytes) → entry host out ≡ or_else (last_on host results) (entry host last)
  distinct : Distinct last → Distinct out
  filled : is_empty out ≡ (not (any_operation results) && is_empty last)
  closed : unsettled results ≡ false

last_results-Collected :
    (results : List Execution) (last : List (Bytes × Execution))
    → ((last_results results last ≡ none) × (unsettled results ≡ true))
      ⊎ ((out : List (Bytes × Execution)) × ((last_results results last ≡ some out)
            × Collected results last out))
unfolding last_results unsettled last_on any_operation is_open
last_results-Collected [] last = inr (
  last,
  (refl, record { entries = λ host. refl; distinct = λ d. d; filled = refl; closed = refl }),
)
last_results-Collected (r ∷ results) last = elim (Bool-cases (is_local r.request.operation)) [
  | inl l ↦ elim (last_results-Collected results last) [
    | inl (n, u) ↦ inl (rw l n, rw l u)
    | inr (out, (e, c)) ↦ inr (
      out,
      (
        rw l e,
        record {
          entries = λ host.
              rw l (c.entries host ∙ or_else_if (last_on host results) (entry host last) false r);
          distinct = c.distinct;
          filled = rw l c.filled;
          closed = rw l c.closed;
        },
      ),
    )
  ]
  | inr o ↦ elim (Bool-cases (is_open r.status)) [
    | inl p ↦ inl (rw (o, p) refl, rw (o, p) refl)
    | inr s ↦ elim (last_results-Collected results (set_last r last)) [
      | inl (n, u) ↦ inl (rw (o, s) n, rw (o, s) u)
      | inr (out, (e, c)) ↦ inr (
        out,
        (
          rw (o, s) e,
          record {
            entries = λ host. rw o (
                c.entries host
                ∙ ap (or_else (last_on host results)) (entry-set_last host r last)
                ∙ or_else_if (last_on host results) (entry host last)
                    (bytes_equal r.request.host_id host) r);
            distinct = λ d. c.distinct (set_last-Distinct r last d);
            filled = rw o (let f = c.filled in let k = set_last-filled r last in ground arith);
            closed = rw (o, s) c.closed;
          },
        ),
      )
    ]
  ]
]

each_verified-entries :
    (load : Bytes → Option Verification) (last : List (Bytes × Execution))
    → Distinct last
    → (each_verified load last ≡ true)
      ↔ ((host : Bytes) (r : Execution) → entry host last ≡ some r → verifies (load host) r ≡ true)
unfolding each_verified entry
each_verified-entries load [] d = (λ h host r e. cc, λ h. refl)
each_verified-entries load ((key, x) ∷ last) d =
    let ih = each_verified-entries load last d.1 in
    (
      λ h host r e. elim (Bool-cases (bytes_equal key host)) [
        | inl s ↦
            let same : x ≡ r = let k = rw s at e in cc in
            let k = bytes_equal→eq key host s in rw (← k, ← same) (ground arith)
        | inr n ↦ ih.0 (ground arith) host r (rw n at e)
      ],
      λ h.
          let first : verifies (load key) x ≡ true = h key x (rw (bytes_equal_refl key) refl) in
          let rest : each_verified load last ≡ true = ih.1 (λ host r e.
            elim (Bool-cases (bytes_equal key host)) [
              | inl s ↦
                  let k = bytes_equal→eq key host s in
                  let gone : entry host last ≡ none = rw (← k) d.0 in cc
              | inr n ↦ h host r (rw n e)
            ]) in
          ground arith,
    )

checked-some :
    (load : Bytes → Option Verification) (out : List (Bytes × Execution))
    → checked load (some out) ≡ (not (is_empty out) && each_verified load out)
unfolding checked is_empty
checked-some load [] = refl
checked-some load (e ∷ out) = refl

-- The service holds a task for done exactly if there is an operation on a server, none of them is open,
-- and on every server the last one is what the stored verification names.
pub record Complete (results : List Execution) (load : Bytes → Option Verification) : Type 0 where
  pub some_operation : has_operations (some results) ≡ true
  pub none_open : unsettled results ≡ false
  pub last_verified :
      (host : Bytes) (r : Execution) → last_on host results ≡ some r → verifies (load host) r ≡ true

or_else-none : (a : Option Execution) → or_else a none ≡ a
or_else-none none = refl
or_else-none (some x) = refl

checked_iff :
    (results : List Execution) (load : Bytes → Option Verification)
    → (checked load (last_results results []) ≡ true) ↔ Complete results load
unfolding has_operations
checked_iff results load = elim (last_results-Collected results []) [
  | inl (n, u) ↦ (λ h. let k = rw n at h in absurd_none k, λ c. let k = c.none_open in cc)
  | inr (out, (e, c)) ↦
      let same : (host : Bytes) → entry host out ≡ last_on host results =
        λ host. unfold entry in c.entries host ∙ or_else-none (last_on host results) in
      let each = each_verified-entries load out (c.distinct tt) in
      let filled = c.filled in
      (
        λ h.
            let k = sym (checked-some load out) ∙ (rw e at h) in
            record {
              some_operation = unfold is_empty in ground arith;
              none_open = c.closed;
              last_verified = λ host r l. each.0 (ground arith) host r (same host ∙ l);
            },
        λ p. rw e (
            checked-some load out
            ∙ (let q = p.some_operation in
                let v = each.1 (λ host r l. p.last_verified host r (sym (same host) ∙ l)) in
                unfold is_empty in ground arith)),
      )
]
  where
    absurd_none : checked load none ≡ true → Complete results load
    absurd_none h = unfold checked in cc

-- `allVerified` holds exactly of a task that is complete in this sense.
pub all_verified_iff :
    (results : List Execution) (load : Bytes → Option Verification)
    → (all_verified (some results) load ≡ true) ↔ Complete results load
unfolding all_verified
all_verified_iff [] load =
    (λ h. cc, λ c. let k = c.some_operation in unfold has_operations any_operation in cc)
all_verified_iff (r ∷ results) load = checked_iff (r ∷ results) load
