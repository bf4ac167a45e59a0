-- ===== src/Store/Changes.antt =====
-- internal/store/changes.go: the wake-ups of the subscribers to a task.
--
-- A channel is a number. It holds one wake-up at most, and Go ends the program when a closed channel is closed
-- again or sent to: these are the two errors. Each function runs under the lock from its start to its end.
pub mod Channels
pub mod Safety
pub mod Waking
use nex_shell.Prelude.{
  ℕ, ◌+◌, Bool, true, false, not, ◌&&◌, ◌||◌, List, [], ◌∷◌, ◌++◌, ◌==◌, if◌then◌else◌, Bytes,
  bytes_equal, Result, ok, err, Exec, pure, fail, gets, modify, ◌>>=◌, ◌>>◌,
}

pub record Channel : Type 0 where
  pub waiting : Bool
  pub shut : Bool

-- `taskChanges`: the subscribers with their tasks, and the channels made so far, the next one being `next`
pub record Changes : Type 0 where
  pub closed : Bool
  pub subscribers : List (Bytes × ℕ)
  pub channels : ℕ → Channel
  pub next : ℕ

pub data Panic : Type 0 where
  closed_again sent_on_closed : Panic

abbrev pub Update : Type 0 → Type 0
Update A = Exec Panic Changes A

abbrev pub no_changes : Changes
no_changes = record {
  closed = false;
  subscribers = [];
  channels = λ n. record { waiting = false; shut = false };
  next = 0;
}

abbrev pub set_channel : ℕ → Channel → Changes → Changes
set_channel n c s = record s { channels = λ k. if k == n then c else s.channels k }

-- `close(ch)`
unfoldable pub shut_channel : ℕ → Update (Unit {0})
shut_channel n = do
  c ← gets (λ s. s.channels n)
  if c.shut then fail closed_again else modify (set_channel n (record c { shut = true }))

-- the `select` with its `default`: a wake-up that is held already is enough
unfoldable pub wake : ℕ → Update (Unit {0})
wake n = do
  c ← gets (λ s. s.channels n)
  if c.shut then fail sent_on_closed else modify (set_channel n (record c { waiting = true }))

unfoldable pub is_subscribed : Bytes → ℕ → List (Bytes × ℕ) → Bool
is_subscribed id n [] = false
is_subscribed id n ((k, c) ∷ list) = bytes_equal k id && c == n || is_subscribed id n list

unfoldable pub without : Bytes → ℕ → List (Bytes × ℕ) → List (Bytes × ℕ)
without id n [] = []
without id n ((k, c) ∷ list) =
    let rest = without id n list in if bytes_equal k id && c == n then rest else (k, c) ∷ rest

-- the entry of a new channel, by whether the store is closed
unfoldable pub enter : Bytes → ℕ → Bool → Update (Unit {0})
enter id n true = shut_channel n
enter id n false = modify (λ s. record s { subscribers = s.subscribers ++ (id, n) ∷ [] })

-- `SubscribeTask`: a new channel, which is closed at once when the store is
unfoldable pub subscribe : Bytes → Update ℕ
subscribe id = do
  n ← gets (λ s. s.next)
  modify (λ s. set_channel n (record { waiting = false; shut = false }) (record s { next = n + 1 }))
  closed ← gets (λ s. s.closed)
  enter id n closed
  pure n

-- the function that `SubscribeTask` returns; behind a closed store it finds no subscriber
unfoldable pub unsubscribe : Bytes → ℕ → Update (Unit {0})
unsubscribe id n = do
  found ← gets (λ s. is_subscribed id n s.subscribers)
  if found
      then (do modify (λ s. record s { subscribers = without id n s.subscribers }); shut_channel n)
      else pure tt

unfoldable pub wake_all : Bytes → List (Bytes × ℕ) → Update (Unit {0})
wake_all id [] = pure tt
wake_all id ((k, n) ∷ list) = do if bytes_equal k id then wake n else pure tt; wake_all id list

-- `notify`
unfoldable pub notify : Bytes → Update (Unit {0})
notify id = do list ← gets (λ s. s.subscribers); wake_all id list

unfoldable pub shut_all : List (Bytes × ℕ) → Update (Unit {0})
shut_all [] = pure tt
shut_all ((k, n) ∷ list) = do shut_channel n; shut_all list

-- `close`
unfoldable pub close : Update (Unit {0})
close = do
  modify (λ s. record s { closed = true })
  list ← gets (λ s. s.subscribers)
  shut_all list
  modify (λ s. record s { subscribers = [] })

-- a subscriber takes its wake-up, if there is one
unfoldable pub take_wake_up : ℕ → Update (Unit {0})
take_wake_up n = do
  c ← gets (λ s. s.channels n)
  modify (set_channel n (record c { waiting = false }))

-- What may happen. A subscriber gives back any channel, and as often as it likes.
pub data Event : Type 0 where
  subscribes : Bytes → Event
  unsubscribes : Bytes → ℕ → Event
  notifies : Bytes → Event
  takes : ℕ → Event
  closes : Event

unfoldable pub handle : Event → Update (Unit {0})
handle (subscribes id) = do subscribe id; pure tt
handle (unsubscribes id n) = unsubscribe id n
handle (notifies id) = notify id
handle (takes n) = take_wake_up n
handle closes = close

unfoldable pub handle_all : List Event → Update (Unit {0})
handle_all [] = pure tt
handle_all (e ∷ events) = do handle e; handle_all events
