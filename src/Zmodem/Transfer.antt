-- ===== src/Zmodem/Transfer.antt =====
-- internal/transfer/zmodem/transfer.go: a whole transfer of one file, between `Send` and `Receive`.
--
-- The bytes that each end writes, and what each reads of the other's frames. A file's content is
-- sent as a list of chunks, one packet each.
use nex_shell.Prelude.{
  ℕ, suc, ◌+◌, ◌^◌, ◌<◌, ◌≤◌, ◌≡◌, refl, ◌∙◌, false, List, [], ◌∷◌, ◌++◌, arith, Bytes, length,
  codes, All, ok, length-append,
}
use nex_shell.Zmodem.Crc.{IsByte}
use nex_shell.Zmodem.Data.{data_packet, read_data_loop, max_packet, read_data}
use nex_shell.Zmodem.Data.RoundTrip.{read_data-data_packet}
use nex_shell.Zmodem.Escape.{raw_flow}
use nex_shell.Zmodem.Files.{metadata}
use nex_shell.Zmodem.Headers.{header_frame, header_end, read_header, max_skipped}
use nex_shell.Zmodem.Headers.RoundTrip.{IsNoise, read_header-header_frame}
use nex_shell.Zmodem.Receive.{ready}
use nex_shell.Zmodem.Wire.{
  Codec, zrqinit, zfile, zrpos, zdata, zack, zeof, zfin, zcrcw, position, position_of,
}

-- the data part, from an offset on, with what follows it
unfoldable pub stream : ℕ → List Bytes → Bytes → Bytes
stream pos [] tail = tail
stream pos (c ∷ chunks) tail =
    header_frame (position zdata pos)
    ++ (data_packet c zcrcw false ++ stream (pos + length c) chunks tail)

unfoldable pub total : List Bytes → ℕ
total [] = 0
total (c ∷ chunks) = length c + total chunks

unfoldable pub sent : Bytes → List Bytes → Bytes
sent name chunks =
    header_frame (position zrqinit 0)
    ++ (header_frame (position zfile 0)
        ++ (data_packet (metadata name (total chunks)) zcrcw false
            ++ stream 0 chunks (
                header_frame (position zeof (total chunks))
                ++ (header_frame (position zfin 0) ++ codes "OO"))))

-- the acknowledgements
unfoldable pub acks : ℕ → List Bytes → Bytes
acks pos [] = []
acks pos (c ∷ chunks) =
    header_frame (position zack (pos + length c)) ++ acks (pos + length c) chunks

unfoldable pub answered : List Bytes → Bytes
answered chunks =
    header_frame ready
    ++ (header_frame (position zrpos 0)
        ++ (acks 0 chunks ++ (header_frame ready ++ header_frame (position zfin 0))))

-- the progress that both ends report
unfoldable pub marks : Bytes → ℕ → ℕ → List Bytes → List (Bytes × ℕ × ℕ)
marks name size pos [] = []
marks name size pos (c ∷ chunks) =
    (name, pos + length c, size) ∷ marks name size (pos + length c) chunks

-- the content
unfoldable pub joined : List Bytes → Bytes
joined [] = []
joined (c ∷ chunks) = c ++ joined chunks

pub length-joined : (chunks : List Bytes) → length (joined chunks) ≡ total chunks
unfolding joined total
length-joined [] = refl
length-joined (c ∷ chunks) = omega (arith, length-append c (joined chunks), length-joined chunks)

-- what a packet may carry
abbrev pub Chunk : Bytes → Type 0
Chunk c = All IsByte c × (length c ≤ max_packet)

pub position_of-position : (kind pos : ℕ) → pos < 2 ^ 32 → position_of (position kind pos) ≡ pos
position_of-position kind pos h = omega arith

pub read_position :
    (c : Codec) (noise : Bytes) (kind pos : ℕ) (rest : Bytes)
    → All IsNoise noise
    → length noise < max_skipped
    → kind < 256
    → read_header (record c { input = noise ++ (header_frame (position kind pos) ++ rest) })
      ≡ (ok (position kind pos), record c { input = header_end (position kind pos) ++ rest })
read_position c noise kind pos rest n fits k =
    read_header-header_frame c noise (position kind pos) rest n fits (record {
      kind_byte = k;
      b0_byte = omega arith;
      b1_byte = omega arith;
      b2_byte = omega arith;
      b3_byte = omega arith;
    })

read_data_loop-flow :
    (c : Codec) (room : ℕ) (rest : Bytes)
    → read_data_loop (suc room) false [] (record c { input = 0x11 ∷ rest })
      ≡ read_data_loop (suc room) false [] (record c { input = rest })
unfolding read_data_loop
read_data_loop-flow c room rest = rw (raw_flow c 0x11 rest refl) refl

-- A packet behind the resume mark of its header.
pub read_packet :
    (c : Codec) (payload rest : Bytes)
    → All IsByte payload
    → length payload ≤ max_packet
    → read_data false (record c { input = 0x11 ∷ (data_packet payload zcrcw false ++ rest) })
      ≡ (ok (payload, zcrcw), record c { input = 0x11 ∷ rest })
unfolding read_data
read_packet c payload rest bytes fits =
    read_data_loop-flow c max_packet (data_packet payload zcrcw false ++ rest)
    ∙ read_data-data_packet c payload zcrcw false rest bytes fits (omega arith) (omega arith)
