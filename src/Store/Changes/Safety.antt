-- ===== src/Store/Changes/Safety.antt =====
-- No channel is closed twice or sent to once it is closed.
use nex_shell.Prelude.{
  ℕ, ◌+◌, ◌<◌, ◌≡◌, refl, Bool, true, false, List, [], ◌∷◌, ◌++◌, ◌==◌, ==_refl, arith, Bool-cases,
  inl, inr, Bytes, All, All-append, Result, ok, err, pure, modify, continue, Post,
}
use nex_shell.Store.Changes.{
  Channel, Changes, Panic, no_changes, set_channel, enter, is_subscribed, without, subscribe,
  unsubscribe, notify, shut_all, close, take_wake_up, Event, subscribes, unsubscribes, notifies,
  takes, closes, handle, handle_all,
}
use nex_shell.Store.Changes.Channels.{
  Bad, Fresh, Good, Open, Separate, same-Open, shut-Open, shut_all-Safe, shut_channel-ok,
  subscribed-Open, wake_all-Safe, without-Free, without-Open, without-Separate,
}

unsubscribe-Safe :
    (id : Bytes) (n : ℕ) (s : Changes) → Good s → Post (λ _. Good) Bad (unsubscribe id n s)
unfolding unsubscribe
unsubscribe-Safe id n s g = elim (Bool-cases (is_subscribed id n s.subscribers)) [
  | inl y ↦
      let list = without id n s.subscribers in
      let free = without-Free id n s.subscribers y g.live.separate in
      let h = subscribed-Open s id n s.subscribers y g.live.opened in
      rw y (
        rw (shut_channel-ok (record s { subscribers = list }) n h) (record {
          live = record {
            opened = shut-Open s n _ list free (without-Open s id n s.subscribers g.live.opened);
            separate = without-Separate id n s.subscribers g.live.separate;
          };
        }))
  | inr d ↦ rw d g
]

-- a new channel beside the others
older :
    (s : Changes) (c : Channel) (list : List (Bytes × ℕ))
    → All (Open s) list
    → All (Open (set_channel s.next c (record s { next = s.next + 1 }))) list
older s c [] o = tt
older s c ((k, i) ∷ list) o =
    let other : (i == s.next) ≡ false = let lt = o.0.0 in ground arith in
    let lt : i < s.next + 1 = let l = o.0.0 in omega arith in
    ((lt, rw other o.0.1), older s c list o.1)

Fresh-next : (s : Changes) (list : List (Bytes × ℕ)) → All (Open s) list → Fresh s.next list
Fresh-next s [] o = tt
Fresh-next s ((k, i) ∷ list) o =
    let other : (i == s.next) ≡ false = let lt = o.0.0 in ground arith in
    (other, Fresh-next s list o.1)

Separate-append :
    (id : Bytes) (s : Changes) (list : List (Bytes × ℕ))
    → All (Open s) list
    → Separate list
    → Separate (list ++ (id, s.next) ∷ [])
Separate-append id s [] o p = (tt, tt)
Separate-append id s ((k, i) ∷ list) o p =
    let other : (s.next == i) ≡ false = let lt = o.0.0 in ground arith in
    (
      All-append (λ e. (e.1 == i) ≡ false) list ((id, s.next) ∷ []) p.0 (other, tt),
      Separate-append id s list o.1 p.1,
    )

enter-Safe :
    (id : Bytes) (s : Changes) (closed : Bool)
    → Good s
    → Post
        (λ _. Good)
        Bad
        (enter id s.next closed (
          set_channel s.next
            (record { waiting = false; shut = false })
            (record s { next = s.next + 1 })))
unfolding enter
enter-Safe id s true g =
    let u : Changes =
      set_channel s.next (record { waiting = false; shut = false })
        (record s { next = s.next + 1 }) in
    rw (shut_channel-ok u s.next (rw (==_refl s.next) refl)) (record {
      live = record {
        opened =
            shut-Open u s.next _ s.subscribers (Fresh-next s s.subscribers g.live.opened)
              (older s _ s.subscribers g.live.opened);
        separate = g.live.separate;
      };
    })
enter-Safe id s false g =
    let u : Changes =
      set_channel s.next (record { waiting = false; shut = false })
        (record s { next = s.next + 1 }) in
    let lt : s.next < s.next + 1 = omega arith in
    record {
      live = record {
        opened =
            All-append (Open u) s.subscribers ((id, s.next) ∷ [])
              (older s _ s.subscribers g.live.opened) ((lt, rw (==_refl s.next) refl), tt);
        separate = Separate-append id s s.subscribers g.live.opened g.live.separate;
      };
    }

then_pure :
    {A B : Type 0} (b : B) (x : Result Panic A × Changes)
    → Post (λ _. Good) Bad x
    → Post (λ _. Good) Bad (continue x (λ _. pure b))
then_pure b (ok a, u) p = p
then_pure b (err e, u) p = p

subscribe-Safe : (id : Bytes) (s : Changes) → Good s → Post (λ _. Good) Bad (subscribe id s)
unfolding subscribe
subscribe-Safe id s g = then_pure s.next _ (enter-Safe id s s.closed g)

close-Safe : (s : Changes) → Good s → Post (λ _. Good) Bad (close s)
unfolding close
close-Safe s g = closed (shut_all s.subscribers (record s { closed = true })) (
    shut_all-Safe s.subscribers (record s { closed = true })
      (record { opened = g.live.opened; separate = g.live.separate }))
  where
    closed :
        (x : Result Panic (Unit {0}) × Changes)
        → Post (λ _ u. Unit {0}) Bad x
        → Post (λ _. Good) Bad (continue x (λ _. modify (λ u. record u { subscribers = [] })))
    closed (ok v, u) p = record { live = record { opened = tt; separate = tt } }
    closed (err e, u) p = p

pub handle-Safe : (e : Event) (s : Changes) → Good s → Post (λ _. Good) Bad (handle e s)
unfolding handle notify take_wake_up
handle-Safe (subscribes id) s g = then_pure tt (subscribe id s) (subscribe-Safe id s g)
handle-Safe (unsubscribes id n) s g = unsubscribe-Safe id n s g
handle-Safe (notifies id) s g = wake_all-Safe id s.subscribers s g.live.opened g.live
handle-Safe (takes n) s g = record {
  live = record {
    opened =
        same-Open s n (record (s.channels n) { waiting = false }) s.subscribers refl g.live.opened;
    separate = g.live.separate;
  };
}
handle-Safe closes s g = close-Safe s g

handle_all-Safe : (events : List Event) (s : Changes) → Good s → (handle_all events s).0 ≡ ok tt
unfolding handle_all
handle_all-Safe [] s g = refl
handle_all-Safe (e ∷ events) s g =
    more (handle e s) (handle-Safe e s g) (λ u h. handle_all-Safe events u h)
  where
    more :
        (x : Result Panic (Unit {0}) × Changes)
        → Post (λ _. Good) Bad x
        → ((u : Changes) → Good u → (handle_all events u).0 ≡ ok tt)
        → (continue x (λ _. handle_all events)).0 ≡ ok tt
    more (ok v, u) p rest = rest u p
    more (err f, u) p rest = absurd p

-- Whatever the subscribers do, in any order and behind the end of the store too, no channel is closed twice and
-- none is sent to once it is closed.
pub never_panics : (events : List Event) → (handle_all events no_changes).0 ≡ ok tt
never_panics events =
    handle_all-Safe events no_changes (record { live = record { opened = tt; separate = tt } })
