-- ===== src/Zmodem/Receive/Exits.antt =====
-- `Receive` as a whole: its body, the deferred `Close` and the deferred `Cancel`.
use mathlib.Core.Bool.{false≢true}
use nex_shell.Prelude.{◌≡◌, sym, ◌∙◌, ap, arith, false, Option, Result, ok, err, Post}
use nex_shell.Zmodem.Disk.{Disk}
use nex_shell.Zmodem.Receive.{
  Local, Receiver, held, released, no_fuel, receive_body, or_close, or_cancel, receive,
}
use nex_shell.Zmodem.Receive.Handles.{Accounted, receive_body-Balanced}
use nex_shell.Zmodem.Receive.Keeps.{Kept, Kept-refl}
use nex_shell.Zmodem.Receive.Loop.{Done, receive_body-Done}
use nex_shell.Zmodem.Wire.{Error, Header}

-- The open handles are those that a later `ZFILE` replaced.
abbrev pub Closed : Local → Type 0
Closed l = l.handles ≡ l.lost

released-Closed : (l : Local) → Accounted l → Closed (released l)
released-Closed l a = omega arith

exits :
    (before : Disk) (x : Result Error (Unit {0}) × Receiver)
    → Post (λ _ r. Done before r.local) (λ r. Kept before r.disk) x
    → Post (λ _ r. Accounted r.local) (λ r. Accounted r.local) x
    → Post
        (λ _ r. Done before r.local × Closed r.local)
        (λ r. Kept before r.disk × Closed r.local)
        (or_cancel (or_close x))
exits before (ok u, r) d a =
    (record { kept = d.kept; closed = d.closed }, released-Closed r.local a)
exits before (err e, r) k a = (k, released-Closed r.local a)

-- A session that starts without an open file, whatever the peer sends and whichever calls of the operating system
-- fail, keeps what the directory held: an entry's content is still the beginning of what is stored under its name,
-- and an entry whose name is not safe is as it was. With an error and without, no more handles are open in the end
-- than those that a later `ZFILE` replaced in the variable before they were closed; without an error the variable
-- holds none.
pub receive-Done :
    (initial : Option Header) (r : Receiver)
    → r.file ≡ false
    → r.handles ≡ r.lost
    → Post
        (λ _ s. Done r.disk s.local × (s.handles ≡ s.lost))
        (λ s. Kept r.disk s.disk × (s.handles ≡ s.lost))
        (receive initial r)
unfolding receive
receive-Done initial r shut none_open =
    let none_held = ap held shut in
    exits r.disk (receive_body no_fuel initial r)
      ((receive_body-Done r.disk initial).at r
        (record { kept = Kept-refl r.disk; opened = λ e. absurd (false≢true (sym shut ∙ e)) }))
      ((receive_body-Balanced initial).at r (omega arith))
