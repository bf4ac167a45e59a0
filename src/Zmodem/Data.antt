-- ===== src/Zmodem/Data.antt =====
-- internal/transfer/zmodem/codec.go: `WriteData` and `ReadData`.
pub mod RoundTrip
pub mod Corrupt
pub mod Reads
use nex_shell.Prelude.{
  ℕ, zero, suc, ◌+◌, ◌*◌, ◌/◌, ◌%◌, Bool, true, false, not, ◌&&◌, [], ◌∷◌, ◌++◌, ◌==◌, ltb, leb,
  if◌then◌else◌, Bytes, pure, fail, ◌>>=◌, bit_and, bit_xor,
}
use nex_shell.Zmodem.Crc.{crc16, checksum_ieee}
use nex_shell.Zmodem.Escape.{escape, read_escaped}
use nex_shell.Zmodem.Wire.{
  Wire, Error, data_crc32_mismatch, data_crc16_mismatch, invalid_data_escape, packet_too_large,
  transfer_cancelled, zdle, zcrce, zcrcw, Word4, word_bytes, put_u32, raw, write,
}

-- `binary.BigEndian.PutUint16`, by hand in the source
abbrev pub put_u16 : ℕ → Bytes
put_u16 crc = crc / 256 % 256 ∷ crc % 256 ∷ []

-- `binary.BigEndian.Uint16` and `binary.LittleEndian.Uint32`, on slices of that length
abbrev pub u16_of : Bytes → ℕ
u16_of (a ∷ b ∷ _) = a * 256 + b
u16_of _ = 0

abbrev pub u32_of : Bytes → ℕ
u32_of (a ∷ b ∷ c ∷ d ∷ _) = a + b * 256 + c * 65536 + d * 16777216
u32_of _ = 0

-- the check bytes behind the data and its end mark
abbrev pub check_bytes : Bool → Bytes → Bytes
check_bytes true checked = word_bytes (put_u32 (checksum_ieee checked))
check_bytes false checked = put_u16 (crc16 checked)

abbrev pub trailer : ℕ → Bytes
trailer end = if end == zcrcw then 0x11 ∷ [] else []

unfoldable pub data_packet : Bytes → ℕ → Bool → Bytes
data_packet payload end use_crc32 =
    escape payload
    ++ (zdle ∷ end ∷ escape (check_bytes use_crc32 (payload ++ end ∷ [])) ++ trailer end)

unfoldable pub write_data : Bytes → ℕ → Bool → Wire Unit
unfolding data_packet
write_data payload end use_crc32 = write (data_packet payload end use_crc32)

-- behind an end mark: read the check bytes and compare
unfoldable pub read_check : Bool → Bytes → ℕ → Wire (Bytes × ℕ)
read_check true payload v = do
  check ← read_escaped 4
  if checksum_ieee (payload ++ v ∷ []) == u32_of check
      then pure (payload, v)
      else fail data_crc32_mismatch
read_check false payload v = do
  check ← read_escaped 2
  if crc16 (payload ++ v ∷ []) == u16_of check then pure (payload, v) else fail data_crc16_mismatch

-- the switch on the byte behind `zdle` that is no end mark: the byte that it appends
unfoldable pub data_code : ℕ → Wire ℕ
data_code v =
    if v == b'l'
    then pure 0x7f
    else if v == b'm'
    then pure 0xff
    else if v == zdle
    then fail transfer_cancelled
    else if not (bit_and v 0x60 == 0x40)
    then fail invalid_data_escape
    else pure (bit_xor v 0x40)

-- The loop goes on while `len(data) <= 1024*1024`: `room` is how many more bytes that admits.
unfoldable pub read_data_loop : ℕ → Bool → Bytes → Wire (Bytes × ℕ)
read_data_loop zero use_crc32 payload = fail packet_too_large
read_data_loop (suc room) use_crc32 payload = do
  b ← raw
  if not (b == zdle) then read_data_loop room use_crc32 (payload ++ b ∷ []) else do
    v ← raw
    if leb zcrce v && leb v zcrcw
        then read_check use_crc32 payload v
        else do d ← data_code v; read_data_loop room use_crc32 (payload ++ d ∷ [])

abbrev pub max_packet : ℕ
max_packet = 1024 * 1024

unfoldable pub read_data : Bool → Wire (Bytes × ℕ)
read_data use_crc32 = read_data_loop (max_packet + 1) use_crc32 []
