-- ===== src/Zmodem/Wire.antt =====
-- internal/transfer/zmodem/codec.go: frame kinds, headers, the codec's state and its raw reads.
--
-- The codec owns a buffered reader and a writer. `input` holds the bytes that the peer will still
-- send and `broken` the error that a read returns after them. `output` holds what was written, and
-- `refusals` what the transport answers to the next writes: `none`, or past its end, success.
pub mod Reads
use nex_shell.Prelude.{
  ℕ, ◌+◌, ◌*◌, ◌/◌, ◌%◌, Bool, false, not, ◌||◌, List, [], ◌∷◌, ◌++◌, Option, none, some, ◌==◌,
  if◌then◌else◌, Bytes, ok, err, Exec, pure, fail, ◌>>=◌, bit_and, bit_xor,
}

-- The errors of the package. `eof` is `io.EOF`, `fault` any other error of the transport or of the
-- operating system.
pub data Error : Type 0 where
  eof unexpected_eof not_exist : Error
  fault : ℕ → Error
  transfer_cancelled bad_hex : Error
  invalid_escape : ℕ → Error
  header_crc32_mismatch header_crc16_mismatch header_not_found : Error
  data_crc32_mismatch data_crc16_mismatch invalid_data_escape packet_too_large : Error
  unexpected_kind : ℕ → Error
  zfin_handshake_failed not_regular invalid_crc_range invalid_resume_offset : Error
  incorrect_ack_position invalid_restart_offset too_many_retries : Error
  unsafe_name missing_size invalid_size incompatible_destination prefix_differs : Error
  data_without_file unexpected_data_position exceeds_size incomplete_file : Error
  ended_before_completion missing_final_oo remote_aborted metadata_changed too_many_repeats : Error
  -- no error of the source: a loop of the model ran out of fuel
  out_of_fuel : Error

abbrev pub zrqinit : ℕ
zrqinit = 0

abbrev pub zrinit : ℕ
zrinit = 1

abbrev pub zsinit : ℕ
zsinit = 2

abbrev pub zack : ℕ
zack = 3

abbrev pub zfile : ℕ
zfile = 4

abbrev pub zskip : ℕ
zskip = 5

abbrev pub zabort : ℕ
zabort = 7

abbrev pub zfin : ℕ
zfin = 8

abbrev pub zrpos : ℕ
zrpos = 9

abbrev pub zdata : ℕ
zdata = 10

abbrev pub zeof : ℕ
zeof = 11

abbrev pub zcrc : ℕ
zcrc = 13

abbrev pub zdle : ℕ
zdle = 0x18

abbrev pub zcrce : ℕ
zcrce = b'h'

abbrev pub zcrcg : ℕ
zcrcg = b'i'

abbrev pub zcrcq : ℕ
zcrcq = b'j'

abbrev pub zcrcw : ℕ
zcrcw = b'k'

-- `[4]byte`
pub record Word4 : Type 0 where
  pub b0 : ℕ
  pub b1 : ℕ
  pub b2 : ℕ
  pub b3 : ℕ

pub record Header : Type 0 where
  pub kind : ℕ
  pub payload : Word4
  pub crc32 : Bool

abbrev pub word_bytes : Word4 → Bytes
word_bytes w = w.b0 ∷ w.b1 ∷ w.b2 ∷ w.b3 ∷ []

-- `binary.LittleEndian.Uint32`
abbrev pub get_u32 : Word4 → ℕ
get_u32 w = w.b0 + w.b1 * 256 + w.b2 * 65536 + w.b3 * 16777216

-- `binary.LittleEndian.PutUint32`; each conversion to `byte` wraps
abbrev pub put_u32 : ℕ → Word4
put_u32 n = record {
  b0 = n % 256;
  b1 = n / 256 % 256;
  b2 = n / 65536 % 256;
  b3 = n / 16777216 % 256;
}

-- the method `Position`
abbrev pub position_of : Header → ℕ
position_of h = get_u32 h.payload

-- the function `Position`
abbrev pub position : ℕ → ℕ → Header
position kind pos = record { kind = kind; payload = put_u32 pos; crc32 = false }

pub record Codec : Type 0 where
  pub input : Bytes
  pub broken : Error
  pub output : Bytes
  pub refusals : List (Option Error)

abbrev pub Wire : Type 0 → Type 0
Wire A = Exec Error Codec A

-- `c.Reader.ReadByte`
unfoldable pub read_in : Bytes → Wire ℕ
read_in [] c = (err c.broken, c)
read_in (b ∷ rest) c = (ok b, record c { input = rest })

unfoldable pub read_byte : Wire ℕ
unfolding read_in
read_byte c = read_in c.input c

-- Flow control bytes that the transport may insert anywhere.
abbrev pub is_flow : ℕ → Bool
is_flow b = b == 0x11 || b == 0x13

raw_in : Bytes → Wire ℕ
raw_in [] c = (err c.broken, c)
raw_in (b ∷ rest) c =
    let again = raw_in rest (record c { input = rest }) in
    if not (is_flow b) then (ok b, record c { input = rest }) else again

unfoldable pub raw : Wire ℕ
unfolding raw_in
raw c = raw_in c.input c

-- `c.Writer.Write`
answer_write : List (Option Error) → Bytes → Wire Unit
answer_write (some e ∷ later) b c = (err e, record c { refusals = later })
answer_write (none ∷ later) b c = (ok tt, record c { output = c.output ++ b; refusals = later })
answer_write [] b c = (ok tt, record c { output = c.output ++ b })

unfoldable pub write : Bytes → Wire Unit
unfolding answer_write
write b c = answer_write c.refusals b c

-- One read of an escaped byte: the byte behind `zdle`, decoded.
unfoldable pub unescape : ℕ → Wire ℕ
unescape v =
    if v == b'l'
    then pure 0x7f
    else if v == b'm'
    then pure 0xff
    else if v == zdle
    then fail transfer_cancelled
    else if bit_and v 0x60 == 0x40
    then pure (bit_xor v 0x40)
    else fail (invalid_escape v)

unfoldable pub escaped : Wire ℕ
unfolding raw unescape
escaped = do b ← raw; if not (b == zdle) then pure b else do v ← raw; unescape v
