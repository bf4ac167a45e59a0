-- ===== src/Zmodem/Receive/Whole.antt =====
-- `Receive` on all that `Send` writes for one file.
use nex_shell.Prelude.{
  ℕ, suc, ◌+◌, ◌-◌, ◌≤◌, ◌≡◌, refl, ◌∙◌, ap, true, false, none, List, [], ◌∷◌, ◌++◌, arith, Bytes,
  length, codes, All, append_assoc, length-append, ok, gets, ◌>>=◌,
}
use nex_shell.Zmodem.Data.{data_packet}
use nex_shell.Zmodem.Disk.{lookup}
use nex_shell.Zmodem.Files.{metadata, safe_name, max_u32}
use nex_shell.Zmodem.Headers.{header_frame, read_header}
use nex_shell.Zmodem.Receive.{
  Local, Receive, released, or_close, ready, on_wire, system_call, take_system, reply, receive_loop,
  request, receive_body, no_fuel, or_cancel, receive,
}
use nex_shell.Zmodem.Receive.Transfer.{
  calm, next, writing, reply-calm, header_calm, chunks_calm, file_round, eof_round, fin_round,
}
use nex_shell.Zmodem.Transfer.{
  stream, total, sent, acks, answered, marks, joined, length-joined, Chunk,
}
use nex_shell.Zmodem.Wire.{Error, zrqinit, zfile, zrpos, zeof, zfin, zcrcw, position}

header_frame-length : (kind pos : ℕ) → 1 ≤ length (header_frame (position kind pos))
unfolding header_frame
header_frame-length kind pos = omega arith

length-stream :
    (pos : ℕ) (chunks : List Bytes) (tail : Bytes)
    → length chunks + length tail ≤ length (stream pos chunks tail)
unfolding stream
length-stream pos [] tail = omega arith
length-stream pos (c ∷ chunks) tail =
    let rest = data_packet c zcrcw false ++ stream (pos + length c) chunks tail in
    omega (
      arith,
      length-append (header_frame (position 10 pos)) rest,
      header_frame-length 10 pos,
      length-append (data_packet c zcrcw false) (stream (pos + length c) chunks tail),
      length-stream (pos + length c) chunks tail,
    )

-- the variables after the transfer
abbrev pub finished : Local → Bytes → List Bytes → Local
finished l name chunks = record (writing l name (total chunks) (joined chunks)) {
  file = false;
  handles = l.handles + 1 - 1;
}

abbrev ending : List Bytes → Bytes
ending chunks =
    header_frame (position zeof (total chunks)) ++ (header_frame (position zfin 0) ++ codes "OO")

-- behind the request
abbrev offer : Bytes → List Bytes → Bytes
offer name chunks =
    header_frame (position zfile 0)
    ++ (data_packet (metadata name (total chunks)) zcrcw false ++ stream 0 chunks (ending chunks))

length-offer : (name : Bytes) (chunks : List Bytes) → length chunks + 2 ≤ length (offer name chunks)
length-offer name chunks =
    let rest =
      data_packet (metadata name (total chunks)) zcrcw false ++ stream 0 chunks (ending chunks) in
    omega (
      arith,
      length-append (header_frame (position zfile 0)) rest,
      header_frame-length zfile 0,
      length-append (data_packet (metadata name (total chunks)) zcrcw false)
          (stream 0 chunks (ending chunks)),
      length-stream 0 chunks (ending chunks),
      length-append (header_frame (position zeof (total chunks)))
          (header_frame (position zfin 0) ++ codes "OO"),
      length-append (header_frame (position zfin 0)) (codes "OO"),
      header_frame-length zeof (total chunks),
    )

receive_loop-offer :
    (broken : Error) (spent : Receive Unit) (more : ℕ) (l : Local) (name : Bytes)
    (chunks : List Bytes) (output : Bytes) (reports : List (Bytes × ℕ × ℕ))
    → All Chunk chunks
    → Chunk (metadata name (total chunks))
    → safe_name name ≡ true
    → total chunks ≤ max_u32
    → lookup name l.disk ≡ none
    → receive_loop spent
        (suc (length chunks + suc (suc more)))
        (calm l (0x11 ∷ offer name chunks) broken output reports)
      ≡ (
        ok tt,
        calm
            (finished l name chunks)
            []
            broken
            ((((output ++ header_frame (position zrpos 0)) ++ acks 0 chunks) ++ header_frame ready)
              ++ header_frame (position zfin 0))
            (reports ++ marks name (total chunks) 0 chunks),
      )
receive_loop-offer broken spent more l name chunks output reports all (bytes, fits) safe small
      absent =
    let size = total chunks in
    let o1 = output ++ header_frame (position zrpos 0) in
    let o2 = o1 ++ acks 0 chunks in
    let p = reports ++ marks name size 0 chunks in
    file_round broken spent (length chunks + suc (suc more)) l name size
      (stream 0 chunks (ending chunks)) output reports bytes fits safe small absent
    ∙ chunks_calm broken spent chunks (length chunks + suc (suc more)) (suc (suc more)) l name size
        [] (ending chunks) o1 reports all (omega arith) small refl
    ∙ eof_round broken spent (suc more) l name size (joined chunks)
        (header_frame (position zfin 0) ++ codes "OO") o2 p (length-joined chunks) small
    ∙ fin_round broken spent more (finished l name chunks) (o2 ++ header_frame ready) p refl

regroup :
    (o r z a f : Bytes) → ((((o ++ r) ++ z) ++ a) ++ r) ++ f ≡ o ++ (r ++ (z ++ (a ++ (r ++ f))))
regroup o r z a f = simp append_assoc

receive_body-sent :
    (broken : Error) (spent : Receive Unit) (l : Local) (name : Bytes) (chunks : List Bytes)
    (output : Bytes) (reports : List (Bytes × ℕ × ℕ))
    → All Chunk chunks
    → Chunk (metadata name (total chunks))
    → safe_name name ≡ true
    → total chunks ≤ max_u32
    → lookup name l.disk ≡ none
    → receive_body spent none (calm l (sent name chunks) broken output reports) ≡ (
      ok tt,
      calm
          (finished l name chunks)
          []
          broken
          (output ++ answered chunks)
          (reports ++ marks name (total chunks) 0 chunks),
    )
unfolding receive_body request system_call take_system sent answered
receive_body-sent broken spent l name chunks output reports all meta safe small absent =
    let more = suc (length (offer name chunks)) - (length chunks + 2) in
    let fuel : suc (length (offer name chunks)) ≡ length chunks + suc (suc more) =
      omega (arith, length-offer name chunks) in
    next (on_wire read_header) _ (
      header_calm broken [] zrqinit 0 l (offer name chunks) output reports tt (omega arith)
        (omega arith))
    ∙ next (reply ready) (λ _. gets (λ r. suc (length r.wire.input)) >>= receive_loop spent)
        (reply-calm broken ready l (0x11 ∷ offer name chunks) output reports)
    ∙ ap
        (λ n.
          receive_loop spent (suc n)
            (calm l (0x11 ∷ offer name chunks) broken (output ++ header_frame ready) reports))
        fuel
    ∙ receive_loop-offer broken spent more l name chunks (output ++ header_frame ready) reports all
        meta safe small absent
    ∙ ap
        (λ o. (
          ok tt,
          calm (finished l name chunks) [] broken o (reports ++ marks name (total chunks) 0 chunks),
        ))
        (regroup output (header_frame ready) (header_frame (position zrpos 0)) (acks 0 chunks)
          (header_frame (position zfin 0)))

pub receive-sent :
    (broken : Error) (l : Local) (name : Bytes) (chunks : List Bytes) (output : Bytes)
    (reports : List (Bytes × ℕ × ℕ))
    → All Chunk chunks
    → Chunk (metadata name (total chunks))
    → safe_name name ≡ true
    → total chunks ≤ max_u32
    → lookup name l.disk ≡ none
    → receive none (calm l (sent name chunks) broken output reports) ≡ (
      ok tt,
      calm
          (released (finished l name chunks))
          []
          broken
          (output ++ answered chunks)
          (reports ++ marks name (total chunks) 0 chunks),
    )
unfolding receive
receive-sent broken l name chunks output reports all meta safe small absent =
    ap (λ x. or_cancel (or_close x))
      (receive_body-sent broken no_fuel l name chunks output reports all meta safe small absent)
