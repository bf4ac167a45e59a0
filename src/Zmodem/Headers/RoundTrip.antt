-- ===== src/Zmodem/Headers/RoundTrip.antt =====
-- What `WriteHeader` sends, `ReadHeader` gives back, behind other output that holds no star and no `zdle`.
use nex_shell.Prelude.{
  ℕ, zero, suc, ◌*◌, ◌<◌, ◌≡◌, ◌≢◌, refl, ◌∙◌, true, false, [], ◌∷◌, ◌++◌, arith, ◌==◌, leb, Bytes,
  length, length-append, take-append, drop-append, All, ok, append_assoc, Bool-cases, inl, inr,
}
use nex_shell.Zmodem.Crc.{IsByte, crc16, crc16-lt}
use nex_shell.Zmodem.Data.{put_u16}
use nex_shell.Zmodem.Escape.{raw_byte, raw_flow}
use nex_shell.Zmodem.Hex.{hex_encode, hex_decode-hex_encode}
use nex_shell.Zmodem.Headers.{
  header_bytes, header_end, header_frame, read_full, peek_cancel, after_stars, check_header,
  skip_line_end, read_hex_header, read_header_loop, max_skipped, read_header,
}
use nex_shell.Zmodem.Wire.{Codec, Header, is_flow, zdle}

pub length-hex_encode : (b : Bytes) → length (hex_encode b) ≡ length b * 2
unfolding hex_encode
length-hex_encode [] = refl
length-hex_encode (v ∷ b) = omega (arith, length-hex_encode b)

read_full_lem :
    (c : Codec) (n : ℕ) (b rest : Bytes)
    → length b ≡ n
    → read_full n (record c { input = b ++ rest }) ≡ (ok b, record c { input = rest })
unfolding read_full
read_full_lem c n b rest e =
    let fits : leb (length b) (length (b ++ rest)) ≡ true = ground (arith, length-append b rest) in
    rw (← e) (rw (fits, take-append, drop-append))

-- The header whose four payload bytes and kind are bytes, as Go's types have it.
pub record IsHeader (h : Header) : Type 0 where
  pub kind_byte : IsByte h.kind
  pub b0_byte : IsByte h.payload.b0
  pub b1_byte : IsByte h.payload.b1
  pub b2_byte : IsByte h.payload.b2
  pub b3_byte : IsByte h.payload.b3

abbrev pub checked_bytes : Header → Bytes
checked_bytes h = header_bytes h ++ put_u16 (crc16 (header_bytes h))

check_header_lem :
    (c : Codec) (h : Header)
    → check_header false (checked_bytes h) c ≡ (ok (record h { crc32 = false }), c)
unfolding check_header
check_header_lem c h = ground (arith, crc16-lt (header_bytes h))

read_hex_header_lem :
    (c : Codec) (h : Header) (rest : Bytes)
    → IsHeader h
    → read_hex_header (record c { input = hex_encode (checked_bytes h) ++ (0x0d ∷ 0x0a ∷ rest) })
      ≡ (ok (record h { crc32 = false }), record c { input = rest })
unfolding read_hex_header skip_line_end
read_hex_header_lem c h rest ih =
    let size : length (hex_encode (checked_bytes h)) ≡ 14 = length-hex_encode (checked_bytes h) in
    let decodes = hex_decode-hex_encode (checked_bytes h) (omega arith) in
    rw (read_full_lem c 14 (hex_encode (checked_bytes h)) (0x0d ∷ 0x0a ∷ rest) size)
      (rw decodes (rw (check_header_lem (record c { input = 0x0d ∷ 0x0a ∷ rest }) h) refl))

-- a frame that begins at the next byte
read_header_loop-frame :
    (c : Codec) (left : ℕ) (h : Header) (rest : Bytes)
    → IsHeader h
    → read_header_loop (suc left) (record c { input = header_frame h ++ rest })
      ≡ (ok (record h { crc32 = false }), record c { input = header_end h ++ rest })
unfolding read_header_loop header_frame peek_cancel after_stars
read_header_loop-frame c left h rest ih =
    let line = 0x0d ∷ 0x0a ∷ header_end h in
    let hex = hex_encode (checked_bytes h) in
    rw (raw_byte c b'*' (b'*' ∷ zdle ∷ b'B' ∷ ((hex ++ line) ++ rest)) refl) (
      rw (raw_byte c b'B' ((hex ++ line) ++ rest) refl)
        (rw (append_assoc hex line rest) (read_hex_header_lem c h (header_end h ++ rest) ih)))

-- terminal output in which no frame and no cancel sequence starts
abbrev pub IsNoise : ℕ → Type 0
IsNoise b = (b ≢ b'*') × (b ≢ zdle)

read_header_loop-noise :
    (c : Codec) (left b : ℕ) (rest : Bytes)
    → IsNoise b
    → is_flow b ≡ false
    → read_header_loop (suc left) (record c { input = b ∷ rest })
      ≡ read_header_loop left (record c { input = rest })
unfolding read_header_loop peek_cancel
read_header_loop-noise c left b rest (ns, nz) f =
    let star : (b == b'*') ≡ false = ground arith in
    let link : (b == zdle) ≡ false = ground arith in rw (raw_byte c b rest f) (rw (link, star))

read_header_loop-flow :
    (c : Codec) (left b : ℕ) (rest : Bytes)
    → is_flow b ≡ true
    → read_header_loop (suc left) (record c { input = b ∷ rest })
      ≡ read_header_loop (suc left) (record c { input = rest })
unfolding read_header_loop
read_header_loop-flow c left b rest f = rw (raw_flow c b rest f)

read_header_loop_lem :
    (c : Codec) (limit : ℕ) (noise : Bytes) (h : Header) (rest : Bytes)
    → All IsNoise noise
    → length noise < limit
    → IsHeader h
    → read_header_loop limit (record c { input = noise ++ (header_frame h ++ rest) })
      ≡ (ok (record h { crc32 = false }), record c { input = header_end h ++ rest })
read_header_loop_lem c zero noise h rest n fits ih = absurd (omega arith)
read_header_loop_lem c (suc limit) [] h rest n fits ih = read_header_loop-frame c limit h rest ih
read_header_loop_lem c (suc limit) (b ∷ noise) h rest n fits ih = elim (Bool-cases (is_flow b)) [
  | inl f ↦
      read_header_loop-flow c limit b (noise ++ (header_frame h ++ rest)) f
      ∙ read_header_loop_lem c (suc limit) noise h rest n.1 (omega arith) ih
  | inr f ↦
      read_header_loop-noise c limit b (noise ++ (header_frame h ++ rest)) n.0 f
      ∙ read_header_loop_lem c limit noise h rest n.1 (omega arith) ih
]

-- A header that `WriteHeader` sends is read back with its kind and payload, behind fewer than 65536
-- bytes of other output that hold no star and no `zdle`; what follows the header's line stays unread.
pub read_header-header_frame :
    (c : Codec) (noise : Bytes) (h : Header) (rest : Bytes)
    → All IsNoise noise
    → length noise < max_skipped
    → IsHeader h
    → read_header (record c { input = noise ++ (header_frame h ++ rest) })
      ≡ (ok (record h { crc32 = false }), record c { input = header_end h ++ rest })
unfolding read_header
read_header-header_frame c noise h rest = read_header_loop_lem c max_skipped noise h rest
