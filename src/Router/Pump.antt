-- ===== src/Router/Pump.antt =====
-- internal/transfer/router.go: `pump` as a whole, and `Write`.
--
-- The reader is that of the codec, with what the terminal still puts out. A transfer is a parameter, from the
-- choice of the files to its end: an action on the codec. `display` is what the display says to the next
-- writes, `true` that it is closed, and `drained` whether nothing is buffered in front of what is left.
pub mod Plain
pub mod Frames
pub mod Starts
use nex_shell.Prelude.{
  ℕ, zero, suc, Bool, true, false, not, ◌&&◌, ◌||◌, Option, none, some, List, [], ◌∷◌, ◌++◌, ◌==◌,
  leb, if◌then◌else◌, Bytes, length, take, drop, get_or, ltb, bytes_equal, bit_and, ◌+◌, ◌*◌,
  Result, ok, err, Exec, pure, fail, gets, modify, ◌>>=◌, ◌>>◌,
}
use nex_shell.Router.{magic, Held, scan_byte, nothing_held}
use nex_shell.Zmodem.Crc.{crc16}
use nex_shell.Zmodem.Headers.{send_cancel}
use nex_shell.Zmodem.Hex.{hex_decode}
use nex_shell.Zmodem.Wire.{Error, Header, Codec, Wire, zrqinit, zrinit, read_byte, write}

pub record Pump : Type 0 where
  pub codec : Codec
  pub held : Held
  pub shown : Bytes
  pub display : List Bool
  pub transferring : Bool
  pub told : List (Bool × Option Error)

abbrev pub new_pump : Codec → Pump
new_pump c = record {
  codec = c;
  held = nothing_held;
  shown = [];
  display = [];
  transferring = false;
  told = [];
}

-- `pump` returns; `spent` is no return of the source
pub data Stop : Type 0 where
  returns spent : Stop

abbrev pub Step : Type 0 → Type 0
Step A = Exec Stop Pump A

abbrev with_codec :
    {A : Type 0} → Result Error A × Codec → Pump → Result Stop (Result Error A) × Pump
with_codec (r, c) s = (ok r, record s { codec = c })

-- an action on the codec, with its error as a value
abbrev pub on_codec : {A : Type 0} → Wire A → Step (Result Error A)
on_codec m s = with_codec (m s.codec) s

abbrev pub without_normal : Pump → Pump
without_normal s = record s { held = record s.held { normal = [] } }

pub show : List Bool → Step (Unit {0})
show [] s = (ok tt, without_normal (record s { shown = s.shown ++ s.held.normal }))
show (false ∷ later) s =
    (ok tt, without_normal (record s { shown = s.shown ++ s.held.normal; display = later }))
show (true ∷ later) s = (err returns, without_normal (record s { display = later }))

abbrev pub is_nothing : Bytes → Bool
is_nothing [] = true
is_nothing (b ∷ s) = false

-- `flush`
unfoldable pub flush : Step (Unit {0})
unfolding show
flush s = if is_nothing s.held.normal then (ok tt, s) else show s.display s

-- the end of a round
unfoldable pub end_round : (Bytes → Bool) → Step (Unit {0})
end_round drained = do
  left ← gets (λ s. s.codec.input)
  normal ← gets (λ s. s.held.normal)
  if drained left || leb 32768 (length normal) then flush else pure tt

-- at most that many bytes of the end of a line
unfoldable pub skip_line : ℕ → Bytes → Option Bytes
skip_line zero s = some s
skip_line (suc left) [] = none
skip_line (suc left) (v ∷ s) =
    let rest = skip_line left s in
    if not (v == b'\r') && not (bit_and v 0x7f == b'\n') then some (v ∷ s) else rest

-- the checksum of the header that was decoded
unfoldable pub is_checked : Bytes → Bool
is_checked b = crc16 (take 5 b) == get_or b 5 0 * 256 + get_or b 6 0

unfoldable pub header_of : Bytes → Header
header_of b = record {
  kind = get_or b 0 0;
  payload = record { b0 = get_or b 1 0; b1 = get_or b 2 0; b2 = get_or b 3 0; b3 = get_or b 4 0 };
  crc32 = false;
}

unfoldable pub is_start : ℕ → Bool
is_start kind = kind == zrqinit || kind == zrinit

abbrev pub failure_in : {A : Type 0} → Result Error A → Option Error
failure_in (ok a) = none
failure_in (err e) = some e

-- the end of a transfer: after an error the peer is told
unfoldable pub finish : Option Error → Step (Unit {0})
finish none = modify (λ s. record s { transferring = false; told = s.told ++ (false, none) ∷ [] })
finish (some e) = do
  on_codec send_cancel
  modify (λ s. record s { transferring = false; told = s.told ++ (false, some e) ∷ [] })

unfoldable pub transfer : (Header → Wire (Unit {0})) → Header → Step (Unit {0})
transfer session h = do
  modify (λ s. record s { transferring = true; told = s.told ++ (true, none) ∷ [] })
  r ← on_codec (session h)
  finish (failure_in r)

-- the bytes behind the header, and what it begins
unfoldable pub begin_with :
    (Header → Wire (Unit {0})) → (Bytes → Bool) → Header → Option Bytes → Step (Unit {0})
begin_with session drained h none = fail returns
begin_with session drained h (some rest) = do
  modify (λ s. record s { codec = record s.codec { input = rest } })
  if is_start h.kind then (do transfer session h; end_round drained) else pure tt

-- Bytes that are no header are for the display, which gets them with the next bytes.
unfoldable pub put_back : Bytes → Step (Unit {0})
put_back raw =
    modify (λ s. record s { held = record s.held { normal = s.held.normal ++ magic ++ raw } })

unfoldable pub on_decoded :
    (Header → Wire (Unit {0})) → (Bytes → Bool) → Bytes → Option Bytes → Step (Unit {0})
on_decoded session drained raw none = put_back raw
on_decoded session drained raw (some b) =
    if is_checked b
    then (do
      left ← gets (λ s. s.codec.input)
      begin_with session drained (header_of b) (skip_line 2 left))
    else put_back raw

-- the fourteen bytes behind the magic ones
unfoldable pub on_magic : (Header → Wire (Unit {0})) → (Bytes → Bool) → Step (Unit {0})
on_magic session drained = do
  flush
  modify (λ s. record s { held = record s.held { pending = [] } })
  left ← gets (λ s. s.codec.input)
  if ltb (length left) 14 then fail returns else (do
    modify (λ s. record s { codec = record s.codec { input = drop 14 left } })
    on_decoded session drained (take 14 left) (hex_decode (take 14 left)))

unfoldable pub on_byte :
    (Header → Wire (Unit {0})) → (Bytes → Bool) → Result Error ℕ → Step (Unit {0})
on_byte session drained (err e) = do
  modify
      (λ s. record s { held = record { normal = s.held.normal ++ s.held.pending; pending = [] } })
  flush
  fail returns
on_byte session drained (ok b) = do
  modify (λ s. record s { held = scan_byte b s.held })
  pending ← gets (λ s. s.held.pending)
  if bytes_equal pending magic then on_magic session drained else end_round drained

-- the loop
unfoldable pub pump : (Header → Wire (Unit {0})) → (Bytes → Bool) → ℕ → Step (Unit {0})
pump session drained zero = fail spent
pump session drained (suc left) = do
  r ← on_codec read_byte
  on_byte session drained r
  pump session drained left

-- `Write`: while a transfer runs, what is typed is dropped; an interrupt ends the transfer
unfoldable pub has_interrupt : Bytes → Bool
has_interrupt [] = false
has_interrupt (b ∷ s) = b == 3 || has_interrupt s

unfoldable pub write_in : Bytes → Step Bool
write_in b = do
  active ← gets (λ s. s.transferring)
  if active then pure (has_interrupt b) else (do on_codec (write b); pure false)
