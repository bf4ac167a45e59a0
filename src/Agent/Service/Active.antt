-- ===== src/Agent/Service/Active.antt =====
-- Each task has one run at most, and a task that runs is stored as running, where the steps do not overlap.
pub mod Stored
use mathlib.Core.Path.{subst}
use nex_shell.Prelude.{
  ◌≡◌, ◌≢◌, refl, sym, ◌∙◌, ap, Bool, true, false, not, ◌&&◌, ◌||◌, Option, none, some, List, [],
  ◌∷◌, ◌++◌, map, arith, if◌then◌else◌, Bool-cases, inl, inr, Bytes, All, codes, bytes_equal,
  bytes_equal→eq, bytes_equal_refl, bytes_equal_comm,
}
use nex_shell.Agent.Service.{Run, Service, is_running, on_run, without_run}
use nex_shell.Agent.Service.Control.{cancelled_run}
use nex_shell.Agent.Service.Frames.{View}
use nex_shell.Agent.Service.Begin.{Predicate}
use nex_shell.Agent.Service.Keeps.{Invariant}
use nex_shell.Agent.Service.Start.{runtime_version}
use nex_shell.Agent.Service.Steps.{Steps, Steps-View}
use nex_shell.Agent.Types.{Task}
use nex_shell.Store.{put_in}
use nex_shell.Store.Queries.{find_task, find_task-put_in, find_task-put_in_other}

-- no two runs of one task
abbrev pub Distinct : List Run → Type 0
Distinct [] = Unit {0}
Distinct (r ∷ runs) = (is_running r.id runs ≡ false) × Distinct runs

-- the run's task is stored as running, in the current version
pub record IsStored (tasks : List Task) (r : Run) : Type 0 where
  pub task : Task
  pub found : find_task r.id tasks ≡ some task
  pub running : task.status ≡ codes "running"
  pub version : task.runtime_version ≡ runtime_version

abbrev pub IsConsistent : Predicate
IsConsistent tasks active closed = Distinct active × All (IsStored tasks) active

-- runs are looked for by their identifiers only
abbrev pub SameIds : (Run → Run) → Type 0
SameIds f = (r : Run) → (f r).id ≡ r.id

pub is_running-on_run :
    (id key : Bytes) (f : Run → Run) (runs : List Run)
    → SameIds f
    → is_running key (on_run id f runs) ≡ is_running key runs
unfolding is_running on_run
is_running-on_run id key f [] h = refl
is_running-on_run id key f (r ∷ runs) h =
    let ih = is_running-on_run id key f runs h in
    let same = ap (λ x. bytes_equal x key) (h r) in
    elim (Bool-cases (bytes_equal r.id id)) [
      | inl y ↦ rw y (rw (same, ih) refl)
      | inr n ↦ rw n (rw ih refl)
    ]

pub is_running-map :
    (key : Bytes) (f : Run → Run) (runs : List Run)
    → SameIds f
    → is_running key (map f runs) ≡ is_running key runs
unfolding is_running
is_running-map key f [] h = refl
is_running-map key f (r ∷ runs) h =
    let same = ap (λ x. bytes_equal x key) (h r) in rw (same, is_running-map key f runs h) refl

pub is_running-without :
    (id key : Bytes) (runs : List Run)
    → is_running key runs ≡ false
    → is_running key (without_run id runs) ≡ false
unfolding is_running without_run
is_running-without id key [] h = refl
is_running-without id key (r ∷ runs) h =
    let ih = is_running-without id key runs (ground arith) in
    elim (Bool-cases (bytes_equal r.id id)) [ inl y ↦ rw y ih | inr n ↦ rw n (ground arith) ]

is_running-append :
    (key : Bytes) (runs : List Run) (r : Run)
    → is_running key (runs ++ r ∷ []) ≡ (is_running key runs || bytes_equal r.id key)
unfolding is_running
is_running-append key [] r = ground arith
is_running-append key (x ∷ runs) r = let ih = is_running-append key runs r in ground arith

Distinct-on_run :
    (id : Bytes) (f : Run → Run) (runs : List Run)
    → SameIds f
    → Distinct runs
    → Distinct (on_run id f runs)
unfolding on_run
Distinct-on_run id f [] h d = tt
Distinct-on_run id f (r ∷ runs) h d =
    let rest = Distinct-on_run id f runs h d.1 in
    elim (Bool-cases (bytes_equal r.id id)) [
      | inl y ↦ rw y (
        subst (λ k. is_running k (on_run id f runs) ≡ false) (sym (h r))
            (is_running-on_run id r.id f runs h ∙ d.0),
        rest,
      )
      | inr n ↦ rw n (is_running-on_run id r.id f runs h ∙ d.0, rest)
    ]

Distinct-map : (f : Run → Run) (runs : List Run) → SameIds f → Distinct runs → Distinct (map f runs)
Distinct-map f [] h d = tt
Distinct-map f (r ∷ runs) h d = (
  subst (λ k. is_running k (map f runs) ≡ false) (sym (h r)) (is_running-map r.id f runs h ∙ d.0),
  Distinct-map f runs h d.1,
)

Distinct-without : (id : Bytes) (runs : List Run) → Distinct runs → Distinct (without_run id runs)
unfolding without_run
Distinct-without id [] d = tt
Distinct-without id (r ∷ runs) d = elim (Bool-cases (bytes_equal r.id id)) [
  | inl y ↦ rw y (Distinct-without id runs d.1)
  | inr n ↦ rw n (is_running-without id r.id runs d.0, Distinct-without id runs d.1)
]

Distinct-append :
    (runs : List Run) (r : Run)
    → is_running r.id runs ≡ false
    → Distinct runs
    → Distinct (runs ++ r ∷ [])
unfolding is_running
Distinct-append [] r n d = (refl, tt)
Distinct-append (x ∷ runs) r n d =
    let other : bytes_equal r.id x.id ≡ false = bytes_equal_comm r.id x.id ∙ ground arith in
    (
      is_running-append x.id runs r ∙ (let h = d.0 in ground arith),
      Distinct-append runs r (ground arith) d.1,
    )
