-- ===== src/Router/Pump/Plain.antt =====
-- Output of the terminal in which no frame begins is shown as it is.
use mathlib.Core.Path.{subst}
use nex_shell.Prelude.{
  ℕ, zero, suc, ◌<◌, ◌≡◌, ◌≢◌, refl, sym, ◌∙◌, ap, Bool, true, ◌||◌, List, [], ◌∷◌, ◌++◌,
  append_assoc, append-nil, arith, leb, Bool-cases, inl, inr, Bytes, length, bytes_equal,
  bytes_equal→eq, Result, ok, err, continue,
}
use nex_shell.Router.{magic, begins_magic, Held, release, scan_byte}
use nex_shell.Router.Pump.{
  Pump, Stop, returns, is_nothing, without_normal, new_pump, show, flush, end_round, on_byte, pump,
}
use nex_shell.Router.Scan.{Seen, scan_byte-Seen, start-Seen}
use nex_shell.Zmodem.Wire.{Error, Header, Codec, Wire, read_in, read_byte}

-- what has been shown stands in front of the rest
abbrev pub behind : Bytes → Held → Held
behind shown s = record { normal = shown ++ s.normal; pending = s.pending }

release-behind :
    (shown normal p : Bytes) → release (shown ++ normal) p ≡ behind shown (release normal p)
unfolding release
release-behind shown normal [] = refl
release-behind shown normal (x ∷ p) = elim (Bool-cases (begins_magic (x ∷ p))) [
  | inl b ↦ rw b refl
  | inr n ↦
      let same = append_assoc shown normal (x ∷ []) in
      rw n (ap (λ k. release k p) same ∙ release-behind shown (normal ++ x ∷ []) p)
]

-- What was read is shown, or held, and the display is open.
pub record Shows (seen : Bytes) (s : Pump) : Type 0 where
  pub scanned : Seen seen (behind s.shown s.held)
  pub open_display : s.display ≡ []

abbrev pub shown_all : Pump → Pump
shown_all s = without_normal (record s { shown = s.shown ++ s.held.normal })

pub show_open :
    (display : List Bool) (s : Pump) → display ≡ [] → show display s ≡ (ok tt, shown_all s)
unfolding show
show_open [] s h = refl
show_open (x ∷ later) s h = cc

-- the step succeeds, shows nothing wrong and reads nothing
pub record Goes (seen : Bytes) (s : Pump) (x : Result Stop (Unit {0}) × Pump) : Type 0 where
  pub succeeds : x.0 ≡ ok tt
  pub shows : Shows seen x.1
  pub same : x.1.codec ≡ s.codec

flush-Goes : (seen : Bytes) (s : Pump) → Shows seen s → Goes seen s (flush s)
unfolding flush
flush-Goes seen s k = elim (Bool-cases (is_nothing s.held.normal)) [
  | inl y ↦ rw y (record { succeeds = refl; shows = k; same = refl })
  | inr n ↦
      let after = show_open s.display s k.open_display in
      rw n (
        rw after (record {
          succeeds = refl;
          shows = record {
            scanned =
                subst (λ t. Seen seen (record { normal = t; pending = s.held.pending }))
                  (sym (append-nil (s.shown ++ s.held.normal))) k.scanned;
            open_display = k.open_display;
          };
          same = refl;
        }))
]

end_round-Goes :
    (drained : Bytes → Bool) (seen : Bytes) (s : Pump)
    → Shows seen s
    → Goes seen s (end_round drained s)
unfolding end_round
end_round-Goes drained seen s k =
    elim (Bool-cases (drained s.codec.input || leb 32768 (length s.held.normal))) [
      | inl y ↦ rw y (flush-Goes seen s k)
      | inr n ↦ rw n (record { succeeds = refl; shows = k; same = refl })
    ]

pub read_cons :
    (list : Bytes) (b : ℕ) (rest : Bytes) (c : Codec)
    → list ≡ b ∷ rest
    → read_in list c ≡ (ok b, record c { input = rest })
unfolding read_in
read_cons [] b rest c h = cc
read_cons (x ∷ list) b rest c h =
    let first : x ≡ b = cc in let later : list ≡ rest = cc in rw (first, later) refl

read_end : (list : Bytes) (c : Codec) → list ≡ [] → read_in list c ≡ (err c.broken, c)
unfolding read_in
read_end [] c h = refl
read_end (x ∷ list) c h = cc

-- no frame begins in the text
abbrev pub NoFrame : Bytes → Type 0
NoFrame text = (u v : Bytes) → (u ++ magic) ++ v ≢ text

pub nothing_left : (t : Bytes) → is_nothing t ≡ true → t ≡ []
nothing_left [] h = refl
nothing_left (b ∷ t) h = cc

pub NoFrame-front : (a b : Bytes) → NoFrame (a ++ b) → NoFrame a
NoFrame-front a b plain u v e =
    plain u (v ++ b) (sym (append_assoc (u ++ magic) v b) ∙ ap (λ t. t ++ b) e)

module _ (session : Header → Wire (Unit {0})) (drained : Bytes → Bool) where
  abbrev pub after_read : ℕ → Bytes → Pump → Pump
  after_read b rest s = record s {
    codec = record s.codec { input = rest };
    held = scan_byte b s.held;
  }

  pub scanned-Shows :
      (seen : Bytes) (b : ℕ) (rest : Bytes) (s : Pump)
      → Shows seen s
      → Shows (seen ++ b ∷ []) (after_read b rest s)
  unfolding scan_byte
  scanned-Shows seen b rest s k = record {
    scanned =
        subst (Seen (seen ++ b ∷ []))
          (release-behind s.shown s.held.normal (s.held.pending ++ b ∷ []))
          (scan_byte-Seen seen b (behind s.shown s.held) k.scanned);
    open_display = k.open_display;
  }

  pub on_byte-Goes :
      (seen : Bytes) (b : ℕ) (rest : Bytes) (s : Pump)
      → Shows seen s
      → NoFrame (seen ++ b ∷ [])
      → Goes
          (seen ++ b ∷ [])
          (after_read b rest s)
          (on_byte session drained (ok b) (record s { codec = record s.codec { input = rest } }))
  unfolding on_byte
  on_byte-Goes seen b rest s k plain =
      let u = after_read b rest s in
      let shows = scanned-Shows seen b rest s k in
      elim (Bool-cases (bytes_equal u.held.pending magic)) [
        | inl y ↦
            let at_end : (u.shown ++ u.held.normal) ++ magic ≡ seen ++ b ∷ [] =
              subst (λ p. (u.shown ++ u.held.normal) ++ p ≡ seen ++ b ∷ [])
                (bytes_equal→eq u.held.pending magic y) shows.scanned.whole in
            absurd (
              plain (u.shown ++ u.held.normal) []
                (append-nil ((u.shown ++ u.held.normal) ++ magic) ∙ at_end))
        | inr n ↦ rw n (end_round-Goes drained (seen ++ b ∷ []) u shows)
      ]

  -- the loop has returned, and the display has the whole text
  Shown : Bytes → Result Stop (Unit {0}) × Pump → Type 0
  Shown text x = (x.0 ≡ err returns) × (x.1.shown ≡ text)

  on_end :
      (seen : Bytes) (e : Error) (s : Pump)
      → Shows seen s
      → Shown seen (on_byte session drained (err e) s)
  unfolding on_byte flush Shown
  on_end seen e s k =
      let all = s.held.normal ++ s.held.pending in
      let u = record s { held = record { normal = all; pending = [] } } in
      let whole = sym (append_assoc s.shown s.held.normal s.held.pending) ∙ k.scanned.whole in
      elim (Bool-cases (is_nothing all)) [
        | inl y ↦
            let none_left = nothing_left all y in
            rw y (refl, sym (append-nil s.shown) ∙ ap (λ t. s.shown ++ t) (sym none_left) ∙ whole)
        | inr n ↦ rw n (rw (show_open s.display u k.open_display) (refl, whole))
      ]

  on_stop :
      (text : Bytes) (x : Result Stop (Unit {0}) × Pump) (left : ℕ)
      → Shown text x
      → Shown text (continue x (λ _. pump session drained left))
  unfolding Shown
  on_stop text (ok v, t) left h = let k = h.0 in cc
  on_stop text (err f, t) left h = h

  on_more :
      (seen text rest : Bytes) (left : ℕ) (s : Pump) (x : Result Stop (Unit {0}) × Pump)
      → Goes seen s x
      → s.codec.input ≡ rest
      → ((t : Pump)
          → Shows seen t
          → t.codec.input ≡ rest
          → Shown text (pump session drained left t))
      → Shown text (continue x (λ _. pump session drained left))
  on_more seen text rest left s (ok v, t) g e next = next t g.shows (ap (λ c. c.input) g.same ∙ e)
  on_more seen text rest left s (err f, t) g e next = let k = g.succeeds in cc

  pump-Shown :
      (list : Bytes) (left : ℕ) (seen : Bytes) (s : Pump)
      → s.codec.input ≡ list
      → Shows seen s
      → NoFrame (seen ++ list)
      → length list < left
      → Shown (seen ++ list) (pump session drained left s)
  unfolding pump read_byte
  pump-Shown list zero seen s e k plain lt = absurd (omega arith)
  pump-Shown [] (suc left) seen s e k plain lt =
      let ends = on_end seen s.codec.broken s k in
      rw (read_end s.codec.input s.codec e) (
        rw (append-nil seen)
          (on_stop seen (on_byte session drained (err s.codec.broken) s) left ends))
  pump-Shown (b ∷ rest) (suc left) seen s e k plain lt =
      let same = append_assoc seen (b ∷ []) rest in
      rw (read_cons s.codec.input b rest s.codec e) (
        on_more (seen ++ b ∷ []) (seen ++ b ∷ rest) rest left (after_read b rest s) _
          (on_byte-Goes seen b rest s k
            (NoFrame-front (seen ++ b ∷ []) rest (subst NoFrame (sym same) plain)))
          refl
          λ t shows input.
            subst (λ z. Shown z (pump session drained left t)) same
              (pump-Shown rest left (seen ++ b ∷ []) t input shows (subst NoFrame (sym same) plain)
                (omega arith)))

  -- Output in which no frame begins is shown as a whole and unchanged, and then `pump` returns: one round more
  -- than there are bytes is enough.
  pub pump_plain :
      (c : Codec) (left : ℕ)
      → NoFrame c.input
      → length c.input < left
      → ((pump session drained left (new_pump c)).0 ≡ err returns)
        × ((pump session drained left (new_pump c)).1.shown ≡ c.input)
  unfolding Shown
  pump_plain c left plain lt =
      pump-Shown c.input left [] (new_pump c) refl
        (record { scanned = start-Seen; open_display = refl }) plain lt
