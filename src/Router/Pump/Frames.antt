-- ===== src/Router/Pump/Frames.antt =====
-- The magic bytes are found wherever they stand for the first time.
use mathlib.Core.Path.{subst}
use nex_shell.Prelude.{
  ℕ, suc, ◌+◌, ◌≡◌, refl, sym, ◌∙◌, ap, Bool, [], ◌∷◌, ◌++◌, append_assoc, append-nil, arith, Bytes,
  length, take, bytes_equal, bytes_equal_refl, length-append, Result, ok, err, continue,
}
use nex_shell.Router.{magic, begins_magic}
use nex_shell.Router.Pump.{Pump, Stop, new_pump, on_byte, on_magic, pump}
use nex_shell.Router.Pump.Plain.{
  NoFrame, NoFrame-front, Shows, Goes, read_cons, after_read, scanned-Shows, on_byte-Goes,
}
use nex_shell.Router.Scan.{begins-length, snoc_eq, start-Seen}
use nex_shell.Zmodem.Wire.{Header, Codec, Wire, read_byte}

-- the magic bytes without the last one
abbrev pub opening : Bytes
opening = take 3 magic

cancel_right : (a b c : Bytes) → a ++ c ≡ b ++ c → a ≡ b
cancel_right a b [] e = sym (append-nil a) ∙ e ∙ append-nil b
cancel_right a b (x ∷ c) e =
    let ends = append_assoc a (x ∷ []) c ∙ e ∙ sym (append_assoc b (x ∷ []) c) in
    (snoc_eq a b x x (cancel_right (a ++ x ∷ []) (b ++ x ∷ []) c ends)).0

-- one round for each byte, and more
rounds : Bytes → ℕ → ℕ
rounds [] left = left
rounds (b ∷ list) left = suc (rounds list left)

rounds_eq : (list : Bytes) (left : ℕ) → rounds list left ≡ length list + left
unfolding rounds
rounds_eq [] left = omega arith
rounds_eq (b ∷ list) left = let ih = rounds_eq list left in omega arith

module _ (session : Header → Wire (Unit {0})) (drained : Bytes → Bool) where
  -- The loop has shown, or holds, what it has read, and has `rest` to read.
  record Reached (seen rest : Bytes) (left : ℕ) (s : Pump) (x : Result Stop (Unit {0}) × Pump)
      : Type 0 where
    state : Pump
    shows : Shows seen state
    codec_eq : state.codec ≡ record s.codec { input = rest }
    goes_on : x ≡ pump session drained left state

  on_more :
      (seen whole rest : Bytes) (more left : ℕ) (s : Pump) (c : Codec)
      (x : Result Stop (Unit {0}) × Pump)
      → Goes seen s x
      → ((t : Pump)
          → Shows seen t
          → t.codec ≡ s.codec
          → Reached whole rest left t (pump session drained more t))
      → s.codec ≡ record c { input = s.codec.input }
      → (t : Pump) × (Shows whole t
          × (t.codec ≡ record c { input = rest })
          × (continue x (λ _. pump session drained more) ≡ pump session drained left t))
  on_more seen whole rest more left s c (ok v, t) g next e =
      let r = next t g.shows g.same in
      (
        r.state,
        (
          r.shows,
          r.codec_eq ∙ ap {A = Codec} (λ k. record k { input = rest }) (g.same ∙ e),
          r.goes_on,
        ),
      )
  on_more seen whole rest more left s c (err f, t) g next e = let k = g.succeeds in cc

  reach :
      (list tail : Bytes) (left : ℕ) (seen : Bytes) (s : Pump)
      → s.codec.input ≡ list ++ tail
      → Shows seen s
      → NoFrame (seen ++ list)
      → Reached (seen ++ list) tail left s (pump session drained (rounds list left) s)
  unfolding pump read_byte rounds
  reach [] tail left seen s e k plain = record {
    state = s;
    shows = rw (append-nil seen) k;
    codec_eq = ap (λ t. record s.codec { input = t }) e;
    goes_on = refl;
  }
  reach (b ∷ list) tail left seen s e k plain =
      let same = append_assoc seen (b ∷ []) list in
      let u = after_read session drained b (list ++ tail) s in
      let front = NoFrame-front (seen ++ b ∷ []) list (subst NoFrame (sym same) plain) in
      let (t, (shows, c, goes)) =
        on_more (seen ++ b ∷ []) ((seen ++ b ∷ []) ++ list) tail (rounds list left) left u s.codec _
          (on_byte-Goes session drained seen b (list ++ tail) s k front)
          (λ t shows same_codec.
            reach list tail left (seen ++ b ∷ []) t (ap (λ c. c.input) same_codec) shows
              (subst NoFrame (sym same) plain))
          refl in
      record {
        state = t;
        shows = subst (λ z. Shows z t) same shows;
        codec_eq = c;
        goes_on = rw (read_cons s.codec.input b (list ++ tail) s.codec e) goes;
      }

  -- The fourth magic byte, when the others have been read for the first time.
  last_byte :
      (before rest : Bytes) (s : Pump)
      → Shows (before ++ opening) s
      → s.codec.input ≡ b'B' ∷ rest
      → (u : Pump) × ((u.shown ++ u.held.normal ≡ before)
          × (u.held.pending ≡ magic)
          × (u.display ≡ [])
          × (u.codec ≡ record s.codec { input = rest })
          × ((left : ℕ)
              → pump session drained (suc left) s
                ≡ continue (on_magic session drained u) (λ _. pump session drained left)))
  unfolding pump read_byte on_byte
  last_byte before rest s k e =
      let u = after_read session drained b'B' rest s in
      let shows = scanned-Shows session drained (before ++ opening) b'B' rest s k in
      let split : (before ++ opening) ++ b'B' ∷ [] ≡ before ++ magic =
        append_assoc before opening (b'B' ∷ []) in
      let pending : u.held.pending ≡ magic = begins-length u.held.pending shows.scanned.begins (
        shows.scanned.longest before magic (sym split) (unfold begins_magic bytes_equal in refl)) in
      let whole : (u.shown ++ u.held.normal) ++ magic ≡ before ++ magic =
        ap (λ p. (u.shown ++ u.held.normal) ++ p) (sym pending) ∙ shows.scanned.whole ∙ split in
      (
        u,
        (
          cancel_right (u.shown ++ u.held.normal) before magic whole,
          pending,
          shows.open_display,
          refl,
          λ left.
              rw (read_cons s.codec.input b'B' rest s.codec e)
                (rw (ap (λ p. bytes_equal p magic) pending ∙ bytes_equal_refl magic) refl),
        ),
      )

  -- When output of the terminal goes on with the magic bytes, and they have not stood in it before, then after a round
  -- for each byte `pump` is at the handling of a frame, with the rest to read: it holds back just the magic bytes,
  -- and what it has shown and is about to show is the output in front of them.
  pub pump_finds :
      (c : Codec) (before rest : Bytes) (left : ℕ)
      → c.input ≡ (before ++ magic) ++ rest
      → NoFrame (before ++ opening)
      → (u : Pump) × ((u.shown ++ u.held.normal ≡ before)
          × (u.held.pending ≡ magic)
          × (u.display ≡ [])
          × (u.codec ≡ record c { input = rest })
          × (pump session drained (length before + 4 + left) (new_pump c)
              ≡ continue (on_magic session drained u) (λ _. pump session drained left)))
  pump_finds c before rest left e first =
      let split : c.input ≡ (before ++ opening) ++ b'B' ∷ rest =
        e ∙ append_assoc before magic rest ∙ sym (append_assoc before opening (b'B' ∷ rest)) in
      let r =
        reach (before ++ opening) (b'B' ∷ rest) (suc left) [] (new_pump c) split
          (record { scanned = start-Seen; open_display = refl }) first in
      let (u, (shown, pending, display, codec_eq, at_magic)) =
        last_byte before rest r.state r.shows (ap (λ k. k.input) r.codec_eq) in
      let fuel : length before + 4 + left ≡ rounds (before ++ opening) (suc left) =
        omega (arith, rounds_eq (before ++ opening) (suc left), length-append before opening) in
      (
        u,
        (
          shown,
          pending,
          display,
          codec_eq ∙ ap {A = Codec} (λ k. record k { input = rest }) r.codec_eq,
          ap (λ n. pump session drained n (new_pump c)) fuel ∙ r.goes_on ∙ at_magic left,
        ),
      )
