-- ===== src/Store/Changes/Channels.antt =====
-- Lists of subscribers whose channels are open, and what waking and closing make of them.
use mathlib.Core.Path.{subst}
use nex_shell.Prelude.{
  ℕ, ◌<◌, ◌≡◌, refl, sym, ◌∙◌, ap, true, false, ◌&&◌, List, [], ◌∷◌, ◌==◌, ==_iff, ==_refl, arith,
  Bool-cases, inl, inr, Bytes, bytes_equal, All, ok, Post, Hoare,
}
use nex_shell.Store.Changes.{
  Channel, Changes, Update, set_channel, shut_channel, wake, is_subscribed, without, wake_all,
  shut_all,
}

-- The channels of the list are open, were made, and are each other's.
abbrev pub Open : Changes → Bytes × ℕ → Type 0
Open s (k, n) = (n < s.next) × ((s.channels n).shut ≡ false)

abbrev pub Fresh : ℕ → List (Bytes × ℕ) → Type 0
Fresh n list = All (λ e. (e.1 == n) ≡ false) list

abbrev pub Separate : List (Bytes × ℕ) → Type 0
Separate [] = Unit {0}
Separate ((k, n) ∷ list) = Fresh n list × Separate list

pub record Live (s : Changes) (list : List (Bytes × ℕ)) : Type 0 where
  pub opened : All (Open s) list
  pub separate : Separate list

-- the subscribers' channels, and none once the store is closed
pub record Good (s : Changes) : Type 0 where
  pub live : Live s s.subscribers

abbrev pub Bad : Changes → Type 0
Bad s = ⊥

-- where an update cannot fail
abbrev pub Safe : {A : Type 0} → (Changes → Type 0) → Update A → (Changes → Type 0) → Type 0
Safe P act Q = Hoare P act (λ _. Q) Bad

pub shut-Open :
    (s : Changes) (n : ℕ) (c : Channel) (list : List (Bytes × ℕ))
    → Fresh n list
    → All (Open s) list
    → All (Open (set_channel n c s)) list
shut-Open s n c [] f o = tt
shut-Open s n c ((k, i) ∷ list) f o = ((o.0.0, rw f.0 o.0.1), shut-Open s n c list f.1 o.1)

-- closing an open channel
pub shut_channel-ok :
    (s : Changes) (n : ℕ)
    → (s.channels n).shut ≡ false
    → shut_channel n s ≡ (ok tt, set_channel n (record (s.channels n) { shut = true }) s)
unfolding shut_channel
shut_channel-ok s n h = rw h refl

pub shut_all-Safe :
    (list : List (Bytes × ℕ)) (s : Changes)
    → Live s list
    → Post (λ _ u. Unit {0}) Bad (shut_all list s)
unfolding shut_all
shut_all-Safe [] s l = tt
shut_all-Safe ((k, n) ∷ list) s l = rw (shut_channel-ok s n l.opened.0.1) (
    shut_all-Safe list (set_channel n (record (s.channels n) { shut = true }) s)
      (record { opened = shut-Open s n _ list l.separate.0 l.opened.1; separate = l.separate.1 }))

pub same-Open :
    (s : Changes) (n : ℕ) (c : Channel) (list : List (Bytes × ℕ))
    → c.shut ≡ (s.channels n).shut
    → All (Open s) list
    → All (Open (set_channel n c s)) list
same-Open s n c [] e o = tt
same-Open s n c ((k, i) ∷ list) e o = (
  (
    o.0.0,
    elim (Bool-cases (i == n)) [
      | inl y ↦
          let same : i ≡ n = (==_iff i n).0 y in
          rw y (e ∙ ap (λ j. (s.channels j).shut) (sym same) ∙ o.0.1)
      | inr d ↦ rw d o.0.1
    ],
  ),
  same-Open s n c list e o.1,
)

pub wake-ok :
    (s : Changes) (n : ℕ)
    → (s.channels n).shut ≡ false
    → wake n s ≡ (ok tt, set_channel n (record (s.channels n) { waiting = true }) s)
unfolding wake
wake-ok s n h = rw h refl

pub wake_all-Safe :
    (id : Bytes) (list : List (Bytes × ℕ)) (s : Changes)
    → All (Open s) list
    → Live s s.subscribers
    → Post (λ _ u. Good u) Bad (wake_all id list s)
unfolding wake_all
wake_all-Safe id [] s o l = record { live = l }
wake_all-Safe id ((k, n) ∷ list) s o l = elim (Bool-cases (bytes_equal k id)) [
  | inl y ↦
      let c = record (s.channels n) { waiting = true } in
      rw y (
        rw (wake-ok s n o.0.1) (
          wake_all-Safe id list (set_channel n c s) (same-Open s n c list refl o.1) (record {
            opened = same-Open s n c s.subscribers refl l.opened;
            separate = l.separate;
          })))
  | inr d ↦ rw d (wake_all-Safe id list s o.1 l)
]

pub without-Open :
    (s : Changes) (id : Bytes) (n : ℕ) (list : List (Bytes × ℕ))
    → All (Open s) list
    → All (Open s) (without id n list)
unfolding without
without-Open s id n [] o = tt
without-Open s id n ((k, i) ∷ list) o = elim (Bool-cases (bytes_equal k id && i == n)) [
  | inl y ↦ rw y (without-Open s id n list o.1)
  | inr d ↦ rw d (o.0, without-Open s id n list o.1)
]

pub without-Fresh :
    (m : ℕ) (id : Bytes) (n : ℕ) (list : List (Bytes × ℕ))
    → Fresh m list
    → Fresh m (without id n list)
unfolding without
without-Fresh m id n [] f = tt
without-Fresh m id n ((k, i) ∷ list) f = elim (Bool-cases (bytes_equal k id && i == n)) [
  | inl y ↦ rw y (without-Fresh m id n list f.1)
  | inr d ↦ rw d (f.0, without-Fresh m id n list f.1)
]

-- Of a subscribed channel there is one entry: without it the channel is no subscriber's.
pub without-Separate :
    (id : Bytes) (n : ℕ) (list : List (Bytes × ℕ)) → Separate list → Separate (without id n list)
unfolding without
without-Separate id n [] s = tt
without-Separate id n ((k, i) ∷ list) s = elim (Bool-cases (bytes_equal k id && i == n)) [
  | inl y ↦ rw y (without-Separate id n list s.1)
  | inr d ↦ rw d (without-Fresh i id n list s.0, without-Separate id n list s.1)
]

-- another channel than one that is in the rest
pub apart :
    (id : Bytes) (n m : ℕ) (list : List (Bytes × ℕ))
    → is_subscribed id n list ≡ true
    → Fresh m list
    → (m == n) ≡ false
unfolding is_subscribed
apart id n m [] h f = cc
apart id n m ((k, i) ∷ list) h f = elim (Bool-cases (bytes_equal k id && i == n)) [
  | inl y ↦
      let same : i ≡ n = (==_iff i n).0 (ground arith) in
      elim (Bool-cases (m == n)) [
        | inl e ↦
            let eq : m ≡ n = (==_iff m n).0 e in
            let clash : (i == m) ≡ true = rw (same, eq) (==_refl n) in let k' = f.0 in cc
        | inr d ↦ d
      ]
  | inr d ↦ apart id n m list (rw d at h) f.1
]

pub without-Free :
    (id : Bytes) (n : ℕ) (list : List (Bytes × ℕ))
    → is_subscribed id n list ≡ true
    → Separate list
    → Fresh n (without id n list)
unfolding is_subscribed without
without-Free id n [] h s = cc
without-Free id n ((k, i) ∷ list) h s = elim (Bool-cases (bytes_equal k id && i == n)) [
  | inl y ↦
      let same : i ≡ n = (==_iff i n).0 (ground arith) in
      rw y (without-Fresh n id n list (subst (λ j. Fresh j list) same s.0))
  | inr d ↦
      let later : is_subscribed id n list ≡ true = rw d at h in
      rw d (apart id n i list later s.0, without-Free id n list later s.1)
]

pub subscribed-Open :
    (s : Changes) (id : Bytes) (n : ℕ) (list : List (Bytes × ℕ))
    → is_subscribed id n list ≡ true
    → All (Open s) list
    → (s.channels n).shut ≡ false
unfolding is_subscribed
subscribed-Open s id n [] h o = cc
subscribed-Open s id n ((k, i) ∷ list) h o = elim (Bool-cases (bytes_equal k id && i == n)) [
  | inl y ↦
      let same : i ≡ n = (==_iff i n).0 (ground arith) in
      subst (λ j. (s.channels j).shut ≡ false) same o.0.1
  | inr d ↦ subscribed-Open s id n list (rw d at h) o.1
]
