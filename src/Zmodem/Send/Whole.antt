-- ===== src/Zmodem/Send/Whole.antt =====
-- `Send` of one file, on all that `Receive` answers.
use nex_shell.Prelude.{
  ℕ, suc, ◌+◌, ◌≤◌, ◌<◌, ◌≡◌, refl, sym, ◌∙◌, ap, true, false, none, some, List, [], ◌∷◌, ◌++◌,
  arith, Bytes, length, codes, All, append_assoc, append-nil, length-append, ltb, ok,
}
use nex_shell.Zmodem.Data.{data_packet, write_data}
use nex_shell.Zmodem.Disk.{Disk, lookup}
use nex_shell.Zmodem.Files.{base, metadata, max_u32}
use nex_shell.Zmodem.Headers.{header_frame, read_header, max_skipped}
use nex_shell.Zmodem.Headers.RoundTrip.{IsNoise}
use nex_shell.Zmodem.Receive.{ready}
use nex_shell.Zmodem.Send.{
  Send, on_wire, check_context, take_context, system_call, take_system, put, report, await_start,
  send_data, send_content, send_node, send_file, send_files, finish, invitation, send_body, no_fuel,
  or_cancel, send,
}
use nex_shell.Zmodem.Send.Pieces.{pieces, joined-pieces}
use nex_shell.Zmodem.Send.Transfer.{
  calm, next, put-calm, data_calm, header_calm, gap, send_data-calm,
}
use nex_shell.Zmodem.Transfer.{stream, total, length-joined, sent, acks, answered, marks}
use nex_shell.Zmodem.Wire.{
  Error, write, zrqinit, zrinit, zfile, zrpos, zack, zeof, zfin, zcrcw, position,
}

-- the payload of `ready`, as an offset
abbrev flags : ℕ
flags = 0x23000000

length-acks : (pos : ℕ) (chunks : List Bytes) → length chunks ≤ length (acks pos chunks)
unfolding acks header_frame
length-acks pos [] = omega arith
length-acks pos (c ∷ chunks) = omega (
  arith,
  length-append (header_frame (position zack (pos + length c))) (acks (pos + length c) chunks),
  length-acks (pos + length c) chunks,
)

gap-IsNoise : (chunks : List Bytes) → All IsNoise (gap (0x11 ∷ []) chunks)
gap-IsNoise [] = omega arith
gap-IsNoise (c ∷ chunks) = tt

gap-short : (chunks : List Bytes) → length (gap (0x11 ∷ []) chunks) < max_skipped
gap-short [] = omega arith
gap-short (c ∷ chunks) = omega arith

-- behind the first header
abbrev replies : Bytes → Bytes
replies content =
    header_frame (position zrpos 0)
    ++ (acks 0 (pieces (length content) content)
        ++ (header_frame ready ++ header_frame (position zfin 0)))

-- all progress reports: one for each packet, and one for the file
abbrev pub progress : Bytes → Bytes → List (Bytes × ℕ × ℕ)
progress name content =
    marks (base name) (length content) 0 (pieces (length content) content)
    ++ (base name, length content, length content) ∷ []

module _ (broken : Error) (disk : Disk) where
  content_calm :
      (spent : Send ℕ) (name content tail output : Bytes) (reports : List (Bytes × ℕ × ℕ))
      → length content ≤ max_u32
      → let chunks = pieces (length content) content in
        send_content spent name content
          (some 0)
          (calm disk (0x11 ∷ (acks 0 chunks ++ (header_frame ready ++ tail))) broken output reports)
        ≡ (
          ok tt,
          calm disk
              (0x11 ∷ tail)
              broken
              ((output ++ stream 0 chunks []) ++ header_frame (position zeof (length content)))
              ((reports ++ marks (base name) (length content) 0 chunks)
                ++ (base name, length content, length content) ∷ []),
        )
  unfolding send_content report
  content_calm spent name content tail output reports small =
      let chunks = pieces (length content) content in
      let answers = 0x11 ∷ (acks 0 chunks ++ (header_frame ready ++ tail)) in
      let o1 = output ++ stream 0 chunks [] in
      let p = reports ++ marks (base name) (length content) 0 chunks in
      let o2 = o1 ++ header_frame (position zeof (length content)) in
      let fits : ltb (length content) 0 ≡ false = ground arith in
      rw fits (
        next (send_data spent (suc (length answers)) name content 0 0) _ (
          send_data-calm broken disk (length content) (suc (length answers)) spent name content []
            content (0x11 ∷ []) (header_frame ready ++ tail) output reports refl (omega arith)
            (omega (
              arith,
              length-append (acks 0 chunks) (header_frame ready ++ tail),
              length-acks 0 chunks,
            ))
            small (omega arith) (omega arith))
        ∙ next (put (position zeof (length content))) _ (
            put-calm broken disk (position zeof (length content))
              (gap (0x11 ∷ []) chunks ++ (header_frame ready ++ tail)) o1 p)
        ∙ next (on_wire read_header) _ (
            header_calm broken disk (gap (0x11 ∷ []) chunks) zrinit flags tail o2 p
              (gap-IsNoise chunks) (gap-short chunks) (omega arith))
        ∙ refl)

  await_calm :
      (content rest output : Bytes) (reports : List (Bytes × ℕ × ℕ)) (tries : ℕ)
      → await_start
          (suc tries)
          content
          (calm disk (0x11 ∷ (header_frame (position zrpos 0) ++ rest)) broken output reports)
        ≡ (ok (some 0), calm disk (0x11 ∷ rest) broken output reports)
  unfolding await_start
  await_calm content rest output reports tries = next (on_wire read_header) _ (
      header_calm broken disk (0x11 ∷ []) zrpos 0 rest output reports (omega arith) (omega arith)
        (omega arith))

  finish-calm :
      (output : Bytes) (reports : List (Bytes × ℕ × ℕ)) (tries : ℕ)
      → finish (suc tries) (calm disk (0x11 ∷ header_frame (position zfin 0)) broken output reports)
        ≡ (ok tt, calm disk [] broken (output ++ codes "OO") reports)
  unfolding finish on_wire write
  finish-calm output reports tries = rw (← append-nil (header_frame (position zfin 0))) (
      next (on_wire read_header) _ (
        header_calm broken disk (0x11 ∷ []) zfin 0 [] output reports (omega arith) (omega arith)
          (omega arith)))

  node_calm :
      (spent : Send ℕ) (name content output : Bytes) (reports : List (Bytes × ℕ × ℕ))
      → length content ≤ max_u32
      → send_node spent name
          (some (record { regular = true; content = content }))
          (calm disk (0x11 ∷ replies content) broken output reports)
        ≡ (
          ok tt,
          calm disk
              (0x11 ∷ header_frame (position zfin 0))
              broken
              ((((output ++ header_frame (position zfile 0))
                    ++ data_packet (metadata (base name) (length content)) zcrcw false)
                  ++ stream 0 (pieces (length content) content) [])
                ++ header_frame (position zeof (length content)))
              ((reports ++ marks (base name) (length content) 0 (pieces (length content) content))
                ++ (base name, length content, length content) ∷ []),
        )
  unfolding send_node
  node_calm spent name content output reports small =
      let fits : ltb max_u32 (length content) ≡ false = ground arith in
      let meta = metadata (base name) (length content) in
      let input = 0x11 ∷ replies content in
      let o1 = output ++ header_frame (position zfile 0) in
      let o2 = o1 ++ data_packet meta zcrcw false in
      let later =
        acks 0 (pieces (length content) content)
        ++ (header_frame ready ++ header_frame (position zfin 0)) in
      rw fits (
        next (put (position zfile 0)) _
          (put-calm broken disk (position zfile 0) input output reports)
        ∙ next (on_wire (write_data meta zcrcw false)) _
            (data_calm broken disk meta input o1 reports)
        ∙ next (await_start 20 content) (send_content spent name content)
            (await_calm content later o2 reports 19)
        ∙ content_calm spent name content (header_frame (position zfin 0)) o2 reports small)

stream-append :
    (pos : ℕ) (chunks : List Bytes) (tail : Bytes)
    → stream pos chunks tail ≡ stream pos chunks [] ++ tail
unfolding stream
stream-append pos [] tail = refl
stream-append pos (c ∷ chunks) tail =
    rw (stream-append (pos + length c) chunks tail) (simp append_assoc)

regroup :
    (o q f m d tail e z u : Bytes)
    → d ++ (e ++ (z ++ u)) ≡ tail
    → ((((((o ++ q) ++ f) ++ m) ++ d) ++ e) ++ z) ++ u ≡ o ++ (q ++ (f ++ (m ++ tail)))
regroup o q f m d tail e z u h = rw (← h) (simp append_assoc)

module _ (broken : Error) (disk : Disk) (spent : Send ℕ) (name content : Bytes) where
  abbrev file_output : Bytes → Bytes
  file_output output =
      (((output ++ header_frame (position zfile 0))
          ++ data_packet (metadata (base name) (length content)) zcrcw false)
        ++ stream 0 (pieces (length content) content) [])
      ++ header_frame (position zeof (length content))

  file_calm :
      (output : Bytes) (reports : List (Bytes × ℕ × ℕ))
      → lookup name disk ≡ some (record { regular = true; content = content })
      → length content ≤ max_u32
      → send_file spent name (calm disk (0x11 ∷ replies content) broken output reports) ≡ (
        ok tt,
        calm disk
            (0x11 ∷ header_frame (position zfin 0))
            broken
            (file_output output)
            (reports ++ progress name content),
      )
  unfolding send_file system_call take_system
  file_calm output reports found small =
      ap (λ o. send_node spent name o (calm disk (0x11 ∷ replies content) broken output reports))
        found
      ∙ node_calm broken disk spent name content output reports small
      ∙ ap
          (λ p. (
            ok tt,
            calm disk (0x11 ∷ header_frame (position zfin 0)) broken (file_output output) p,
          ))
          (append_assoc reports
            (marks (base name) (length content) 0 (pieces (length content) content))
            ((base name, length content, length content) ∷ []))

  files_calm :
      (output : Bytes) (reports : List (Bytes × ℕ × ℕ))
      → lookup name disk ≡ some (record { regular = true; content = content })
      → length content ≤ max_u32
      → send_files spent (name ∷ []) (calm disk (0x11 ∷ replies content) broken output reports) ≡ (
        ok tt,
        calm disk
            (0x11 ∷ header_frame (position zfin 0))
            broken
            (file_output output)
            (reports ++ progress name content),
      )
  unfolding send_files check_context take_context
  files_calm output reports found small =
      next (send_file spent name) (λ _. send_files spent []) (file_calm output reports found small)

  send_body-answered :
      (output : Bytes) (reports : List (Bytes × ℕ × ℕ))
      → lookup name disk ≡ some (record { regular = true; content = content })
      → length content ≤ max_u32
      → send_body spent
          (name ∷ [])
          none
          (calm disk (answered (pieces (length content) content)) broken output reports)
        ≡ (
          ok tt,
          calm disk [] broken
              (output ++ sent (base name) (pieces (length content) content))
              (reports ++ progress name content),
        )
  unfolding send_body invitation answered sent
  send_body-answered output reports found small =
      let chunks = pieces (length content) content in
      let o1 = output ++ header_frame (position zrqinit 0) in
      let p = reports ++ progress name content in
      let size : total chunks ≡ length content =
        sym (length-joined chunks)
        ∙ ap length (joined-pieces (length content) content (omega arith)) in
      next (invitation none) _ (
        next (put (position zrqinit 0)) (λ _. on_wire read_header)
          (put-calm broken disk (position zrqinit 0) (answered chunks) output reports)
        ∙ header_calm broken disk [] zrinit flags (replies content) o1 reports tt (omega arith)
            (omega arith))
      ∙ next (send_files spent (name ∷ [])) _ (files_calm o1 reports found small)
      ∙ next (put (position zfin 0)) (λ _. finish 10)
          (put-calm broken disk (position zfin 0) (0x11 ∷ header_frame (position zfin 0))
            (file_output o1) p)
      ∙ finish-calm broken disk (file_output o1 ++ header_frame (position zfin 0)) p 9
      ∙ rw size (
          ap (λ o. (ok tt, calm disk [] broken o p))
            (regroup output (header_frame (position zrqinit 0)) (header_frame (position zfile 0))
              (data_packet (metadata (base name) (length content)) zcrcw false) (stream 0 chunks [])
              _ (header_frame (position zeof (length content))) (header_frame (position zfin 0))
              (codes "OO") (sym (stream-append 0 chunks _))))

pub send-answered :
    (broken : Error) (disk : Disk) (name content output : Bytes) (reports : List (Bytes × ℕ × ℕ))
    → lookup name disk ≡ some (record { regular = true; content = content })
    → length content ≤ max_u32
    → send
        (name ∷ [])
        none
        (calm disk (answered (pieces (length content) content)) broken output reports)
      ≡ (
        ok tt,
        calm disk [] broken
            (output ++ sent (base name) (pieces (length content) content))
            (reports ++ progress name content),
      )
unfolding send
send-answered broken disk name content output reports found small =
    ap or_cancel (send_body-answered broken disk no_fuel name content output reports found small)
