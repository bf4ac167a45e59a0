-- ===== src/Zmodem/Data/RoundTrip.antt =====
-- What `WriteData` sends, `ReadData` gives back.
use nex_shell.Prelude.{
  ℕ, suc, ◌+◌, ◌≤◌, ◌<◌, ◌≡◌, refl, Bool, true, false, ◌&&◌, ◌||◌, [], ◌∷◌, ◌++◌, arith, ◌==◌, leb,
  bit_and, bit_xor, if◌then◌else◌, Bytes, length, All, All-append, ok, append_assoc, append-nil,
  ◌∙◌, ◌-◌,
}
use native.Mathlib.Nat.{zero-add, suc-add}
use nex_shell.Zmodem.Crc.{IsByte, crc16-lt, checksum_ieee-lt}
use nex_shell.Zmodem.Data.{
  check_bytes, trailer, data_packet, read_check, data_code, read_data_loop, max_packet, read_data,
}
use nex_shell.Zmodem.Escape.{
  escape, escape_byte, Escaped, as_is, coded, escape_byte-Escaped, raw_byte, read_escaped-escape,
}
use nex_shell.Zmodem.Wire.{Codec, is_flow, zdle, zcrce, zcrcw}

IsByte-check_bytes :
    (use_crc32 : Bool) (checked : Bytes) → All IsByte (check_bytes use_crc32 checked)
IsByte-check_bytes true checked = omega arith
IsByte-check_bytes false checked = omega arith

data_code-coded :
    (c : Codec) (v w : ℕ)
    → (w == zdle) ≡ false
    → (w == b'l' || w == b'm' || bit_and w 0x60 == 0x40) ≡ true
    → (if w == b'l' then 0x7f else if w == b'm' then 0xff else bit_xor w 0x40) ≡ v
    → data_code w c ≡ (ok v, c)
unfolding data_code
data_code-coded c v w z t d = ground arith

-- One byte of the data.
read_data_loop-Escaped :
    (c : Codec) (room : ℕ) (use_crc32 : Bool) (payload : Bytes) {v : ℕ} {e : Bytes} (rest : Bytes)
    → Escaped v e
    → read_data_loop (suc room) use_crc32 payload (record c { input = e ++ rest })
      ≡ read_data_loop room use_crc32 (payload ++ v ∷ []) (record c { input = rest })
unfolding read_data_loop
read_data_loop-Escaped c room use_crc32 payload {v} rest (as_is f z) =
    rw (raw_byte c v rest f) (rw z)
read_data_loop-Escaped c room use_crc32 payload {v} rest (coded w f k z t d) =
    rw (raw_byte c zdle (w ∷ rest) refl)
      (rw (raw_byte c w rest f) (rw k (rw (data_code-coded (record c { input = rest }) v w z t d))))

pub read_data_loop-escape :
    (c : Codec) (room : ℕ) (use_crc32 : Bool) (payload b rest : Bytes)
    → All IsByte b
    → read_data_loop (length b + room) use_crc32 payload (record c { input = escape b ++ rest })
      ≡ read_data_loop room use_crc32 (payload ++ b) (record c { input = rest })
unfolding escape
read_data_loop-escape c room use_crc32 payload [] rest h = rw (append-nil, zero-add)
read_data_loop-escape c room use_crc32 payload (v ∷ b) rest h =
    rw (append_assoc (escape_byte v) (escape b) rest, suc-add)
      (read_data_loop-Escaped c (length b + room) use_crc32 payload (escape b ++ rest)
          (escape_byte-Escaped v h.0)
        ∙ read_data_loop-escape c room use_crc32 (payload ++ v ∷ []) b rest h.1
        ∙ rw (append_assoc payload (v ∷ []) b))

read_check_lem :
    (c : Codec) (use_crc32 : Bool) (payload : Bytes) (v : ℕ) (rest : Bytes)
    → All IsByte (payload ++ v ∷ [])
    → read_check use_crc32 payload v
        (record c { input = escape (check_bytes use_crc32 (payload ++ v ∷ [])) ++ rest })
      ≡ (ok (payload, v), record c { input = rest })
unfolding read_check
read_check_lem c true payload v rest h =
    let checked = payload ++ v ∷ [] in
    rw (read_escaped-escape c (check_bytes true checked) rest (IsByte-check_bytes true checked))
      (ground (arith, checksum_ieee-lt checked h))
read_check_lem c false payload v rest h =
    let checked = payload ++ v ∷ [] in
    rw (read_escaped-escape c (check_bytes false checked) rest (IsByte-check_bytes false checked))
      (ground (arith, crc16-lt checked))

-- Behind the end mark the loop leaves by `read_check`, if a byte more would have fitted.
pub read_data_loop-end :
    (c : Codec) (room : ℕ) (use_crc32 : Bool) (payload : Bytes) (v : ℕ) (rest : Bytes)
    → zcrce ≤ v
    → v ≤ zcrcw
    → read_data_loop (suc room) use_crc32 payload (record c { input = zdle ∷ v ∷ rest })
      ≡ read_check use_crc32 payload v (record c { input = rest })
unfolding read_data_loop
read_data_loop-end c room use_crc32 payload v rest lo hi =
    let flow : is_flow v ≡ false = ground arith in
    let mark : (leb zcrce v && leb v zcrcw) ≡ true = ground arith in
    rw (raw_byte c zdle (v ∷ rest) refl) (rw (raw_byte c v rest flow) (rw mark))

read_data_loop-data_packet :
    (limit : ℕ) (c : Codec) (payload : Bytes) (end : ℕ) (use_crc32 : Bool) (rest : Bytes)
    → All IsByte payload
    → length payload < limit
    → zcrce ≤ end
    → end ≤ zcrcw
    → read_data_loop limit use_crc32 []
        (record c { input = data_packet payload end use_crc32 ++ rest })
      ≡ (ok (payload, end), record c { input = trailer end ++ rest })
unfolding data_packet
read_data_loop-data_packet limit c payload end use_crc32 rest bytes fits lo hi =
    let check = escape (check_bytes use_crc32 (payload ++ end ∷ [])) in
    let left = limit - length payload - 1 in
    let room : limit ≡ length payload + suc left = omega arith in
    let all = All-append IsByte payload (end ∷ []) bytes (omega arith) in
    let behind = (check ++ trailer end) ++ rest in
    rw (room, append_assoc (escape payload) (zdle ∷ end ∷ (check ++ trailer end)) rest)
      (read_data_loop-escape c (suc left) use_crc32 [] payload (zdle ∷ end ∷ behind) bytes
        ∙ read_data_loop-end c left use_crc32 payload end behind lo hi
        ∙ rw (append_assoc check (trailer end) rest)
            (read_check_lem c use_crc32 payload end (trailer end ++ rest) all))

-- Reading the packet that `WriteData` sends, with either checksum, gives the data and the end mark
-- and leaves what follows the packet, for data of at most 1 MiB and each of the four end marks.
pub read_data-data_packet :
    (c : Codec) (payload : Bytes) (end : ℕ) (use_crc32 : Bool) (rest : Bytes)
    → All IsByte payload
    → length payload ≤ max_packet
    → zcrce ≤ end
    → end ≤ zcrcw
    → read_data use_crc32 (record c { input = data_packet payload end use_crc32 ++ rest })
      ≡ (ok (payload, end), record c { input = trailer end ++ rest })
unfolding read_data
read_data-data_packet c payload end use_crc32 rest bytes fits lo hi =
    read_data_loop-data_packet (max_packet + 1) c payload end use_crc32 rest bytes (omega arith) lo
      hi
