-- ===== src/Router/Tests.antt =====
-- The theorems on `pump` at concrete inputs.
use nex_shell.Prelude.{
  refl, sym, ◌∙◌, false, ◌∷◌, ◌≡◌, ◌++◌, ap, arith, true, [], Bytes, codes, length, length-append,
  err, pure,
}
use mathlib.Core.Bool.{false≢true}
use nex_shell.Router.Pump.{is_start, returns, new_pump, pump}
use nex_shell.Router.Pump.Plain.{NoFrame, pump_plain}
use nex_shell.Zmodem.Wire.{Header, Codec, Wire, eof}
use nex_shell.Agent.Paths.{has_byte}
use nex_shell.Router.{magic}
use nex_shell.Router.Pump.Frames.{opening}
use nex_shell.Router.Pump.Starts.{Starts, pump-Starts}
use nex_shell.Zmodem.Headers.{header_frame}
use nex_shell.Zmodem.Headers.RoundTrip.{IsHeader}
use nex_shell.Zmodem.Wire.{position, zrqinit}

abbrev terminal : Codec
terminal = record { input = codes "a*"; broken = eof; output = []; refusals = [] }

abbrev no_session : Header → Wire (Unit {0})
no_session h = pure tt

too_short : NoFrame (codes "a*")
too_short u v e =
    absurd (omega (arith, ap length e, length-append (u ++ magic) v, length-append u magic))

pump_plain_example :
    ((pump no_session (λ left. true) 3 (new_pump terminal)).0 ≡ err returns)
    × ((pump no_session (λ left. true) 3 (new_pump terminal)).1.shown ≡ codes "a*")
pump_plain_example = pump_plain no_session (λ left. true) terminal 3 too_short (omega arith)

-- two stars more than the frame begins with
abbrev prompt : Bytes
prompt = codes "$ sz f**"

abbrev request : Codec
request = record terminal { input = prompt ++ (header_frame (position zrqinit 0) ++ codes "*") }

has_last : (u v : Bytes) → has_byte b'B' ((u ++ magic) ++ v) ≡ true
unfolding has_byte
has_last [] v = refl
has_last (x ∷ u) v = let ih = has_last u v in ground arith

without_last : has_byte b'B' (prompt ++ opening) ≡ false
unfolding has_byte
without_last = refl

no_frame : NoFrame (prompt ++ opening)
no_frame u v e = false≢true (sym without_last ∙ ap (has_byte b'B') (sym e) ∙ has_last u v)

position-IsHeader : IsHeader (position zrqinit 0)
position-IsHeader = record {
  kind_byte = omega arith;
  b0_byte = omega arith;
  b1_byte = omega arith;
  b2_byte = omega arith;
  b3_byte = omega arith;
}

pump-Starts_example :
    Starts no_session (λ left. true) request prompt (position zrqinit 0) (codes "*") 2
pump-Starts_example =
    pump-Starts no_session (λ left. true) request prompt (position zrqinit 0) (codes "*") 2
      position-IsHeader (unfold is_start in refl) no_frame refl
