-- ===== src/Store/Changes/Waking.antt =====
-- A notification leaves a wake-up with each subscriber of its task.
use mathlib.Core.Path.{subst}
use nex_shell.Prelude.{
  ℕ, ◌≡◌, refl, true, List, [], ◌∷◌, ◌==◌, ==_iff, ==_refl, Bool-cases, inl, inr, Bytes,
  bytes_equal, All, Result, ok, err, continue, Post,
}
use nex_shell.Store.Changes.{
  Changes, Panic, no_changes, set_channel, is_subscribed, wake_all, notify, Event, handle,
  handle_all,
}
use nex_shell.Store.Changes.Channels.{Bad, Good, Open, same-Open, wake-ok}
use nex_shell.Store.Changes.Safety.{handle-Safe}

set_waiting :
    (n m : ℕ) (s : Changes)
    → (s.channels m).waiting ≡ true
    → ((set_channel n (record (s.channels n) { waiting = true }) s).channels m).waiting ≡ true
set_waiting n m s h = elim (Bool-cases (m == n)) [ inl y ↦ rw y refl | inr d ↦ rw d h ]

-- A wake-up that is held stays.
wake_all-stays :
    (id : Bytes) (m : ℕ) (list : List (Bytes × ℕ)) (s : Changes)
    → All (Open s) list
    → (s.channels m).waiting ≡ true
    → ((wake_all id list s).1.channels m).waiting ≡ true
unfolding wake_all
wake_all-stays id m [] s o h = h
wake_all-stays id m ((k, n) ∷ list) s o h = elim (Bool-cases (bytes_equal k id)) [
  | inl y ↦
      let c = record (s.channels n) { waiting = true } in
      rw y (
        rw (wake-ok s n o.0.1) (
          wake_all-stays id m list (set_channel n c s) (same-Open s n c list refl o.1)
            (set_waiting n m s h)))
  | inr d ↦ rw d (wake_all-stays id m list s o.1 h)
]

wake_all-wakes :
    (id : Bytes) (m : ℕ) (list : List (Bytes × ℕ)) (s : Changes)
    → All (Open s) list
    → is_subscribed id m list ≡ true
    → ((wake_all id list s).1.channels m).waiting ≡ true
unfolding wake_all is_subscribed
wake_all-wakes id m [] s o h = cc
wake_all-wakes id m ((k, n) ∷ list) s o h = elim (Bool-cases (bytes_equal k id)) [
  | inl y ↦
      let c = record (s.channels n) { waiting = true } in
      let u = set_channel n c s in
      let opened = same-Open s n c list refl o.1 in
      rw y (
        rw (wake-ok s n o.0.1) (elim (Bool-cases (n == m)) [
          | inl e ↦
              let same : n ≡ m = (==_iff n m).0 e in
              wake_all-stays id m list u opened
                (subst (λ j. (u.channels j).waiting ≡ true) same (rw (==_refl n) refl))
          | inr d ↦ wake_all-wakes id m list u opened (rw (y, d) at h)
        ]))
  | inr d ↦ rw d (wake_all-wakes id m list s o.1 (rw d at h))
]

handle_all-Good : (events : List Event) (s : Changes) → Good s → Good (handle_all events s).1
unfolding handle_all
handle_all-Good [] s g = g
handle_all-Good (e ∷ events) s g =
    more (handle e s) (handle-Safe e s g) (λ u h. handle_all-Good events u h)
  where
    more :
        (x : Result Panic (Unit {0}) × Changes)
        → Post (λ _. Good) Bad x
        → ((u : Changes) → Good u → Good (handle_all events u).1)
        → Good (continue x (λ _. handle_all events)).1
    more (ok v, u) p rest = rest u p
    more (err f, u) p rest = absurd p

-- Whatever has happened before, once `notify` has run for a task, each channel that is subscribed to the task
-- holds a wake-up.
pub notify_wakes :
    (events : List Event) (id : Bytes) (n : ℕ)
    → is_subscribed id n (handle_all events no_changes).1.subscribers ≡ true
    → ((notify id (handle_all events no_changes).1).1.channels n).waiting ≡ true
unfolding notify
notify_wakes events id n h =
    let s = (handle_all events no_changes).1 in
    let g =
      handle_all-Good events no_changes (record { live = record { opened = tt; separate = tt } }) in
    wake_all-wakes id n s.subscribers s g.live.opened h
