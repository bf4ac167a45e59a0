-- ===== src/Zmodem/Tests.antt =====
-- The ZMODEM theorems at concrete inputs, and runs of the codec.
use nex_shell.Prelude.{◌≡◌, refl, true, false, [], ◌∷◌, ◌++◌, arith, ok, err, codes}
use nex_shell.Zmodem.Crc.{crc16}
use nex_shell.Zmodem.Data.{data_packet, put_u16, read_data}
use nex_shell.Zmodem.Data.Corrupt.{read_data_corrupt}
use nex_shell.Zmodem.Data.RoundTrip.{read_data-data_packet}
use nex_shell.Zmodem.Escape.{escape}
use nex_shell.Zmodem.Hex.{hex_encode}
use nex_shell.Zmodem.Headers.{header_frame, read_header}
use nex_shell.Zmodem.Headers.RoundTrip.{read_header-header_frame}
use nex_shell.Zmodem.Wire.{Codec, Header, eof, data_crc16_mismatch, position, zdata, zdle, zcrcw}

abbrev idle : Codec
idle = record { input = []; broken = eof; output = []; refusals = [] }

abbrev offset_frame : Header
offset_frame = position zdata 70000

-- the bytes that the other programs of the protocol send for this header
header_frame_bytes :
    header_frame offset_frame
    ≡ b'*' ∷ b'*' ∷ zdle ∷ (codes "B0a7011010043b9" ++ (0x0d ∷ 0x0a ∷ 0x11 ∷ []))
unfolding header_frame hex_encode crc16
header_frame_bytes = refl

read_header-header_frame_example :
    read_header (record idle { input = codes "user@host$ " ++ (header_frame offset_frame ++ []) })
    ≡ (ok offset_frame, record idle { input = 0x11 ∷ [] })
read_header-header_frame_example =
    read_header-header_frame idle (codes "user@host$ ") offset_frame [] (omega arith) (omega arith)
      (omega arith)

read_data-data_packet_example :
    read_data true (record idle { input = data_packet (0 ∷ 17 ∷ 255 ∷ b'x' ∷ []) zcrcw true ++ [] })
    ≡ (ok (0 ∷ 17 ∷ 255 ∷ b'x' ∷ [], zcrcw), record idle { input = 0x11 ∷ [] })
read_data-data_packet_example =
    read_data-data_packet idle (0 ∷ 17 ∷ 255 ∷ b'x' ∷ []) zcrcw true [] (omega arith) (omega arith)
      (omega arith) (omega arith)

read_data_corrupt_example :
    read_data false (record idle {
      input =
          escape (codes "l" ++ (b'z' ∷ codes "g"))
          ++ (zdle
              ∷ zcrcw
              ∷ (escape (put_u16 (crc16 ((codes "l" ++ (b'o' ∷ codes "g")) ++ zcrcw ∷ []))) ++ []));
    })
    ≡ (err data_crc16_mismatch, record idle { input = [] })
read_data_corrupt_example =
    read_data_corrupt idle (codes "l") b'o' b'z' (codes "g") zcrcw [] (omega arith) (omega arith)
      (omega arith) (omega arith) (omega arith) (omega arith)
