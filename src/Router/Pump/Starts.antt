-- ===== src/Router/Pump/Starts.antt =====
-- A header that asks for a transfer starts it.
use nex_shell.Prelude.{
  ℕ, ◌+◌, ◌≡◌, refl, sym, ◌∙◌, ap, Bool, true, false, [], ◌∷◌, ◌++◌, append_assoc, append-nil,
  arith, Bytes, length, length-append, take, drop, take-append, drop-append, ltb, Bool-cases, inl,
  inr, ok, continue, ◌>>◌,
}
use nex_shell.Router.{magic, nothing_held}
use nex_shell.Router.Pump.{
  Pump, new_pump, is_nothing, flush, end_round, skip_line, is_checked, header_of, is_start,
  transfer, begin_with, on_decoded, on_magic, pump,
}
use nex_shell.Router.Pump.Frames.{opening, pump_finds}
use nex_shell.Router.Pump.Plain.{NoFrame, shown_all, show_open, nothing_left}
use nex_shell.Zmodem.Crc.{crc16-lt}
use nex_shell.Zmodem.Headers.{header_bytes, header_frame, header_end}
use nex_shell.Zmodem.Headers.RoundTrip.{IsHeader, checked_bytes, length-hex_encode}
use nex_shell.Zmodem.Hex.{hex_encode, hex_decode-hex_encode}
use nex_shell.Zmodem.Wire.{Header, Codec, Wire}

-- what `flush` leaves while the display is open
record Flushed (u v : Pump) : Type 0 where
  flushes : flush u ≡ (ok tt, v)
  shown : v.shown ≡ u.shown ++ u.held.normal
  empty : v.held.normal ≡ []
  same : v.codec ≡ u.codec

flush-Flushed : (u : Pump) → u.display ≡ [] → (v : Pump) × Flushed u v
unfolding flush
flush-Flushed u d = elim (Bool-cases (is_nothing u.held.normal)) [
  | inl y ↦
      let none_left = nothing_left u.held.normal y in
      (
        u,
        record {
          flushes = rw y refl;
          shown = sym (append-nil u.shown) ∙ ap (λ t. u.shown ++ t) (sym none_left);
          empty = none_left;
          same = refl;
        },
      )
  | inr n ↦ (
    shown_all u,
    record { flushes = rw n (show_open u.display u d); shown = refl; empty = refl; same = refl },
  )
]

-- the end of the line of a header that asks for a transfer
start_end : (h : Header) → is_start h.kind ≡ true → header_end h ≡ 0x11 ∷ []
unfolding is_start
start_end h s = ground arith

checked : (h : Header) → is_checked (checked_bytes h) ≡ true
unfolding is_checked
checked h = ground (arith, crc16-lt (header_bytes h))

module _ (session : Header → Wire (Unit {0})) (drained : Bytes → Bool) where
  -- The fourteen digits and the end of the line are taken, and the transfer begins.
  on_magic-start :
      (u : Pump) (h : Header) (rest : Bytes)
      → IsHeader h
      → is_start h.kind ≡ true
      → u.display ≡ []
      → u.codec.input ≡ hex_encode (checked_bytes h) ++ (0x0d ∷ 0x0a ∷ 0x11 ∷ rest)
      → (t : Pump) × ((t.shown ≡ u.shown ++ u.held.normal)
          × (t.held ≡ nothing_held)
          × (t.codec ≡ record u.codec { input = 0x11 ∷ rest })
          × (on_magic session drained u
              ≡ (transfer session (record h { crc32 = false }) >> end_round drained) t))
  unfolding on_magic on_decoded begin_with skip_line header_of
  on_magic-start u h rest ih start d e =
      let (v, f) = flush-Flushed u d in
      let hex = hex_encode (checked_bytes h) in
      let tail = 0x0d ∷ 0x0a ∷ 0x11 ∷ rest in
      let size : length hex ≡ 14 = length-hex_encode (checked_bytes h) in
      let input : v.codec.input ≡ hex ++ tail = ap (λ c. c.input) f.same ∙ e in
      let long : ltb (length (hex ++ tail)) 14 ≡ false = ground (arith, length-append hex tail) in
      let digits : take 14 (hex ++ tail) ≡ hex = rw (← size) (take-append hex tail) in
      let later : drop 14 (hex ++ tail) ≡ tail = rw (← size) (drop-append hex tail) in
      let decodes = hex_decode-hex_encode (checked_bytes h) (omega arith) in
      let good = checked h in
      let t : Pump = record v {
        codec = record v.codec { input = 0x11 ∷ rest };
        held = record v.held { pending = [] };
      } in
      (
        t,
        (
          f.shown,
          ap {A = Bytes} (λ n. record { normal = n; pending = [] }) f.empty,
          ap {A = Codec} (λ c. record c { input = 0x11 ∷ rest }) f.same,
          rw f.flushes (rw input (rw (long, digits, later) (rw decodes (rw good (rw start refl))))),
        ),
      )

  -- `pump` has begun a transfer with the header `h`, with `rest` behind it to read.
  pub record Starts (c : Codec) (before : Bytes) (h : Header) (rest : Bytes) (left : ℕ)
      : Type 0 where
    pub state : Pump
    pub shown : state.shown ≡ before
    pub nothing : state.held ≡ nothing_held
    pub codec_eq : state.codec ≡ record c { input = 0x11 ∷ rest }
    pub goes_on :
        pump session drained (length before + 4 + left) (new_pump c)
        ≡ ((transfer session (record h { crc32 = false }) >> end_round drained)
              >> pump session drained left)
            state

  -- When output of the terminal goes on with the frame of a ZRQINIT or a ZRINIT header and the magic bytes have not
  -- stood in it before, then `pump` shows just that output, with nothing held back, begins a transfer with this
  -- header, and goes on behind the transfer: it takes a round for each byte of the output and for each magic byte.
  pub pump-Starts :
      (c : Codec) (before : Bytes) (h : Header) (rest : Bytes) (left : ℕ)
      → IsHeader h
      → is_start h.kind ≡ true
      → NoFrame (before ++ opening)
      → c.input ≡ before ++ (header_frame h ++ rest)
      → Starts c before h rest left
  unfolding header_frame
  pump-Starts c before h rest left ih start first e =
      let hex = hex_encode (checked_bytes h) in
      let tail = 0x0d ∷ 0x0a ∷ 0x11 ∷ rest in
      let line : (hex ++ (0x0d ∷ 0x0a ∷ header_end h)) ++ rest ≡ hex ++ tail =
        rw (start_end h start) (append_assoc hex (0x0d ∷ 0x0a ∷ 0x11 ∷ []) rest) in
      let input : c.input ≡ (before ++ magic) ++ (hex ++ tail) =
        e ∙ ap (λ t. before ++ (magic ++ t)) line ∙ sym (append_assoc before magic (hex ++ tail)) in
      let (u, (shown, pending, display, codec_eq, at_magic)) =
        pump_finds session drained c before (hex ++ tail) left input first in
      let (t, (all, none_held, behind_it, begins)) =
        on_magic-start u h rest ih start display (ap (λ k. k.input) codec_eq) in
      record {
        state = t;
        shown = all ∙ shown;
        nothing = none_held;
        codec_eq = behind_it ∙ ap {A = Codec} (λ k. record k { input = 0x11 ∷ rest }) codec_eq;
        goes_on = at_magic ∙ ap (λ x. continue x (λ _. pump session drained left)) begins;
      }
