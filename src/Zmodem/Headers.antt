-- ===== src/Zmodem/Headers.antt =====
-- internal/transfer/zmodem/codec.go: `WriteHeader`, `ReadHeader` and `Cancel`.
pub mod RoundTrip
pub mod Reads
use nex_shell.Prelude.{
  ℕ, zero, suc, ◌+◌, ◌*◌, ◌/◌, ◌%◌, Bool, true, false, not, ◌&&◌, ◌||◌, Option, none, some, [], ◌∷◌,
  ◌++◌, ◌==◌, leb, if◌then◌else◌, Bytes, length, take, drop, get_or, ok, err, pure, fail, ◌>>=◌,
  ◌>>◌, bit_and,
}
use nex_shell.Zmodem.Crc.{crc16, checksum_ieee}
use nex_shell.Zmodem.Data.{put_u16, u16_of, u32_of}
use nex_shell.Zmodem.Escape.{read_escaped}
use nex_shell.Zmodem.Hex.{hex_encode, hex_decode}
use nex_shell.Zmodem.Wire.{
  Wire, Error, eof, unexpected_eof, bad_hex, transfer_cancelled, header_crc32_mismatch,
  header_crc16_mismatch, header_not_found, zdle, zack, zfin, Header, word_bytes, is_flow, read_byte,
  raw, write,
}

-- `append([]byte{h.Type}, h.Data[:]...)`
abbrev pub header_bytes : Header → Bytes
header_bytes h = h.kind ∷ word_bytes h.payload

-- the resume mark that all headers but these two end with
abbrev pub header_end : Header → Bytes
header_end h = if not (h.kind == zfin) && not (h.kind == zack) then 0x11 ∷ [] else []

unfoldable pub header_frame : Header → Bytes
header_frame h =
    b'*'
    ∷ b'*'
    ∷ zdle
    ∷ b'B'
    ∷ (hex_encode (header_bytes h ++ put_u16 (crc16 (header_bytes h)))
        ++ (0x0d ∷ 0x0a ∷ header_end h))

unfoldable pub write_header : Header → Wire Unit
unfolding header_frame
write_header h = write (header_frame h)

-- `io.ReadFull`: the error if the input ends early
short : Bytes → Error → Error
short [] e = e
short (_ ∷ _) eof = unexpected_eof
short (_ ∷ _) e = e

unfoldable pub read_full : ℕ → Wire Bytes
unfolding short
read_full n c =
    if leb n (length c.input)
    then (ok (take n c.input), record c { input = drop n c.input })
    else (err (short c.input c.broken), record c { input = [] })

-- `c.Reader.UnreadByte`
abbrev pub unread : ℕ → Wire Unit
unread b c = (ok tt, record c { input = b ∷ c.input })

-- `c.Reader.Peek(4)` shows four more cancel bytes
four_zdle : Bytes → Bool
four_zdle (a ∷ b ∷ c ∷ d ∷ _) = a == zdle && b == zdle && c == zdle && d == zdle
four_zdle _ = false

unfoldable pub peek_cancel : ℕ → Wire Bool
unfolding four_zdle
peek_cancel b c = (ok (b == zdle && four_zdle c.input), c)

-- `for { b = raw(); if b != '*' { break } }`: the first byte that is neither flow control, which
-- `raw` drops, nor a star
stars_in : Bytes → Wire ℕ
stars_in [] c = (err c.broken, c)
stars_in (b ∷ rest) c =
    let again = stars_in rest (record c { input = rest }) in
    if not (is_flow b) && not (b == b'*') then (ok b, record c { input = rest }) else again

unfoldable pub after_stars : Wire ℕ
unfolding stars_in
after_stars c = stars_in c.input c

abbrev pub header_of : Bool → Bytes → Header
header_of crc32 b = record {
  kind = get_or b 0 0;
  payload = record { b0 = get_or b 1 0; b1 = get_or b 2 0; b2 = get_or b 3 0; b3 = get_or b 4 0 };
  crc32 = crc32;
}

-- the comparison of the check bytes `raw[5:]` with those of `raw[:5]`
unfoldable pub check_header : Bool → Bytes → Wire Header
check_header true b =
    if not (checksum_ieee (take 5 b) == u32_of (drop 5 b))
    then fail header_crc32_mismatch
    else pure (header_of true b)
check_header false b =
    if not (crc16 (take 5 b) == u16_of (drop 5 b))
    then fail header_crc16_mismatch
    else pure (header_of false b)

-- the line end behind a hexadecimal header; a byte that is not part of it is put back
unfoldable pub skip_line_end : Wire Unit
unfolding read_byte
skip_line_end = do
  b ← read_byte
  if not (b == 0x0d)
      then unread b
      else do b ← read_byte; if not (bit_and b 0x7f == 0x0a) then unread b else pure tt

abbrev pub or_bad_hex : Option Bytes → Wire Bytes
or_bad_hex none = fail bad_hex
or_bad_hex (some b) = pure b

-- `case 'B'`
unfoldable pub read_hex_header : Wire Header
read_hex_header = do
  encoded ← read_full 14
  b ← or_bad_hex (hex_decode encoded)
  h ← check_header false b
  skip_line_end
  pure h

-- `case 'A', 'C'`
unfoldable pub read_binary_header : Bool → Wire Header
read_binary_header crc32 = do b ← read_escaped (if crc32 then 9 else 7); check_header crc32 b

unfoldable pub read_header_loop : ℕ → Wire Header
read_header_loop zero = fail header_not_found
read_header_loop (suc left) = do
  b ← raw
  cancelled ← peek_cancel b
  if cancelled
      then fail transfer_cancelled
      else if not (b == b'*')
      then read_header_loop left
      else do
        b ← after_stars
        if not (b == zdle) then read_header_loop left else do
          kind ← raw
          if kind == b'B'
              then read_hex_header
              else if kind == b'A' || kind == b'C'
              then read_binary_header (kind == b'C')
              else read_header_loop left

abbrev pub max_skipped : ℕ
max_skipped = 65536

unfoldable pub read_header : Wire Header
read_header = read_header_loop max_skipped

unfoldable pub cancel_bytes : Bytes
cancel_bytes =
    zdle ∷ zdle ∷ zdle ∷ zdle ∷ zdle ∷ zdle ∷ zdle ∷ zdle ∷ 8 ∷ 8 ∷ 8 ∷ 8 ∷ 8 ∷ 8 ∷ 8 ∷ 8 ∷ []

-- The result of the write is dropped.
unfoldable pub send_cancel : Wire Unit
unfolding cancel_bytes
send_cancel c = (ok tt, (write cancel_bytes c).1)
