-- ===== src/Zmodem/Data/Corrupt.antt =====
-- Data that is not what the sender made the check bytes of is refused, when one byte differs.
use nex_shell.Prelude.{
  ℕ, suc, ◌+◌, ◌-◌, ◌≤◌, ◌<◌, ◌≡◌, ◌≢◌, sym, ap, ◌∙◌, Bool, false, [], ◌∷◌, ◌++◌, arith, Bytes,
  length, All, All-append_right, err, append_assoc,
}
use nex_shell.Zmodem.Crc.{IsByte, crc16, crc16-lt}
use nex_shell.Zmodem.Crc.Detect.{crc16_single_byte}
use nex_shell.Zmodem.Data.{put_u16, read_check, read_data_loop, max_packet, read_data}
use nex_shell.Zmodem.Data.RoundTrip.{read_data_loop-escape, read_data_loop-end}
use nex_shell.Zmodem.Escape.{escape, read_escaped-escape}
use nex_shell.Zmodem.Wire.{Codec, data_crc16_mismatch, zdle, zcrce, zcrcw}

read_check_mismatch :
    (c : Codec) (payload : Bytes) (v crc : ℕ) (rest : Bytes)
    → crc < 65536
    → crc16 (payload ++ v ∷ []) ≢ crc
    → read_check false payload v (record c { input = escape (put_u16 crc) ++ rest })
      ≡ (err data_crc16_mismatch, record c { input = rest })
unfolding read_check
read_check_mismatch c payload v crc rest h differs =
    rw (read_escaped-escape c (put_u16 crc) rest (omega arith)) (ground arith)

-- The loop reads any data up to its end mark, whatever the check bytes are.
read_data_loop-until_end :
    (limit : ℕ) (c : Codec) (payload : Bytes) (end : ℕ) (use_crc32 : Bool) (rest : Bytes)
    → All IsByte payload
    → length payload < limit
    → zcrce ≤ end
    → end ≤ zcrcw
    → read_data_loop limit use_crc32 [] (record c { input = escape payload ++ (zdle ∷ end ∷ rest) })
      ≡ read_check use_crc32 payload end (record c { input = rest })
read_data_loop-until_end limit c payload end use_crc32 rest bytes fits lo hi =
    let left = limit - length payload - 1 in
    let room : limit ≡ length payload + suc left = omega arith in
    rw room (
      read_data_loop-escape c (suc left) use_crc32 [] payload (zdle ∷ end ∷ rest) bytes
      ∙ read_data_loop-end c left use_crc32 payload end rest lo hi)

module _ (before : Bytes) (v w : ℕ) (after : Bytes) (end : ℕ) where
  abbrev sent_crc : ℕ
  sent_crc = crc16 ((before ++ (v ∷ after)) ++ end ∷ [])

  crc_differs :
      All IsByte (before ++ (v ∷ after))
      → All IsByte (before ++ (w ∷ after))
      → v ≢ w
      → crc16 ((before ++ (w ∷ after)) ++ end ∷ []) ≢ sent_crc
  crc_differs sent got differs same =
      let byte = λ (x : ℕ) (h : All IsByte (before ++ (x ∷ after))).
        (All-append_right IsByte before (x ∷ after) h).0 in
      let split = λ (x : ℕ). append_assoc before (x ∷ after) (end ∷ []) in
      differs (
        crc16_single_byte before v w (after ++ end ∷ []) (byte v sent) (byte w got)
          (ap crc16 (sym (split v)) ∙ sym same ∙ ap crc16 (split w)))

-- With CRC16: data with the byte `w`, put in before it was escaped, where the end mark and the check bytes behind it
-- were made for another byte `v`. `ReadData` reports the checksum, and goes on reading behind the packet.
pub read_data_corrupt :
    (c : Codec) (before : Bytes) (v w : ℕ) (after : Bytes) (end : ℕ) (rest : Bytes)
    → All IsByte (before ++ (v ∷ after))
    → All IsByte (before ++ (w ∷ after))
    → v ≢ w
    → length (before ++ (w ∷ after)) ≤ max_packet
    → zcrce ≤ end
    → end ≤ zcrcw
    → read_data false (record c {
      input =
          escape (before ++ (w ∷ after))
          ++ (zdle
              ∷ end
              ∷ (escape (put_u16 (crc16 ((before ++ (v ∷ after)) ++ end ∷ []))) ++ rest));
    })
      ≡ (err data_crc16_mismatch, record c { input = rest })
unfolding read_data
read_data_corrupt c before v w after end rest sent got differs fits lo hi =
    let payload = before ++ (w ∷ after) in
    let crc = crc16 ((before ++ (v ∷ after)) ++ end ∷ []) in
    read_data_loop-until_end (max_packet + 1) c payload end false (escape (put_u16 crc) ++ rest) got
      (omega arith) lo hi
    ∙ read_check_mismatch c payload end crc rest (crc16-lt ((before ++ (v ∷ after)) ++ end ∷ []))
        (crc_differs before v w after end sent got differs)
