-- ===== src/Zmodem/Receive/Transfer.antt =====
-- `Receive` on what `Send` writes.
use nex_shell.Prelude.{
  ℕ, zero, suc, ◌+◌, ◌-◌, ◌<◌, ◌≤◌, ◌≡◌, refl, ◌∙◌, ap, Bool, true, false, none, List, [], ◌∷◌,
  ◌++◌, arith, Bytes, length, codes, All, append-nil, append_assoc, ltb, ==_refl, length-append,
  if◌then◌else◌, ok, pure, continue, ◌>>=◌,
}
use nex_shell.Zmodem.Crc.{IsByte}
use nex_shell.Zmodem.Data.{data_packet, max_packet, read_data}
use nex_shell.Zmodem.Disk.{lookup, store, lookup-store_self, write_at-end, store-store}
use nex_shell.Zmodem.Files.{metadata, safe_name, max_u32}
use nex_shell.Zmodem.Files.Metadata.{parse_metadata-metadata}
use nex_shell.Zmodem.Headers.{header_frame, header_end, read_header, write_header, max_skipped}
use nex_shell.Zmodem.Headers.RoundTrip.{IsNoise}
use nex_shell.Zmodem.Receive.{
  Local, held, Receiver, Receive, ready, on_wire, try_wire, caught, check_context, take_context,
  system_call, take_system, reply, resume_existing, create, opened_file, on_file, report,
  write_file, acknowledge, data_step, data_loop, on_data, on_eof, on_fin, final_step, final_loop,
  on_header, receive_loop,
}
use nex_shell.Zmodem.Transfer.{
  stream, total, acks, marks, joined, Chunk, position_of-position, read_position, read_packet,
}
use nex_shell.Zmodem.Wire.{
  Error, Header, raw, write, zfile, zrpos, zdata, zack, zeof, zfin, zcrcw, position,
}

-- a receiver whose calls all succeed
abbrev pub calm : Local → Bytes → Error → Bytes → List (Bytes × ℕ × ℕ) → Receiver
calm l input broken output reports = record {
  local = l;
  wire = record { input = input; broken = broken; output = output; refusals = [] };
  contexts = [];
  system = [];
  reports = reports;
}

-- the variables while a file is written
abbrev pub writing : Local → Bytes → ℕ → Bytes → Local
writing start name size done = record {
  disk = store name (record { regular = true; content = done }) start.disk;
  file = true;
  handles = start.handles + 1;
  lost = start.lost + held start.file;
  name = name;
  size = size;
  position = length done;
}

module _ {A B : Type 0} where
  pub next :
      (m : Receive A) (f : A → Receive B) {r r' : Receiver} {a : A}
      → m r ≡ (ok a, r')
      → (m >>= f) r ≡ f a r'
  next m f e = ap (λ x. continue x f) e

module _ (broken : Error) where
  pub reply-calm :
      (h : Header) (l : Local) (input output : Bytes) (reports : List (Bytes × ℕ × ℕ))
      → reply h (calm l input broken output reports)
        ≡ (ok tt, calm l input broken (output ++ header_frame h) reports)
  unfolding reply on_wire write_header write
  reply-calm h l input output reports = refl

  pub header_calm :
      (noise : Bytes) (kind pos : ℕ) (l : Local) (rest output : Bytes)
      (reports : List (Bytes × ℕ × ℕ))
      → All IsNoise noise
      → length noise < max_skipped
      → kind < 256
      → on_wire read_header
          (calm l (noise ++ (header_frame (position kind pos) ++ rest)) broken output reports)
        ≡ (
          ok (position kind pos),
          calm l (header_end (position kind pos) ++ rest) broken output reports,
        )
  unfolding on_wire
  header_calm noise kind pos l rest output reports n fits k =
      ap
        (λ x.
          (x.0, record { local = l; wire = x.1; contexts = []; system = []; reports = reports }))
        (read_position (record { input = []; broken = broken; output = output; refusals = [] })
          noise kind pos rest n fits k)

  packet_calm :
      (payload rest : Bytes) (l : Local) (output : Bytes) (reports : List (Bytes × ℕ × ℕ))
      → All IsByte payload
      → length payload ≤ max_packet
      → read_data false
          ((calm l (0x11 ∷ (data_packet payload zcrcw false ++ rest)) broken output reports).wire)
        ≡ (ok (payload, zcrcw), (calm l (0x11 ∷ rest) broken output reports).wire)
  packet_calm payload rest l output reports bytes fits =
      read_packet (record { input = []; broken = broken; output = output; refusals = [] }) payload
        rest bytes fits

  write_calm :
      (again : Receive Unit) (start : Local) (name : Bytes) (size : ℕ) (done c rest output : Bytes)
      (reports : List (Bytes × ℕ × ℕ))
      → length done + length c ≤ size
      → data_step again
          (ok (c, zcrcw))
          (calm (writing start name size done) rest broken output reports)
        ≡ (
          ok tt,
          calm
              (writing start name size (done ++ c))
              rest
              broken
              (output ++ header_frame (position zack (length done + length c)))
              (reports ++ (name, length done + length c, size) ∷ []),
        )
  unfolding data_step system_call take_system write_file report acknowledge reply on_wire
      write_header write
  write_calm again start name size done c rest output reports room =
      let fits : ltb size (length done + length c) ≡ false = ground arith in
      rw
        (
          fits,
          lookup-store_self name (record { regular = true; content = done }) start.disk,
          write_at-end done c,
          store-store name (record { regular = true; content = done ++ c })
              (record { regular = true; content = done }) start.disk,
          length-append done c,
        )
        refl

  -- one chunk
  on_data-calm :
      (spent : Receive Unit) (start : Local) (name : Bytes) (size : ℕ) (done c rest output : Bytes)
      (reports : List (Bytes × ℕ × ℕ))
      → All IsByte c
      → length c ≤ max_packet
      → length done + length c ≤ size
      → size ≤ max_u32
      → on_data spent (position zdata (length done)) (
          calm
            (writing start name size done)
            (0x11 ∷ (data_packet c zcrcw false ++ rest))
            broken
            output
            reports)
        ≡ (
          ok tt,
          calm
              (writing start name size (done ++ c))
              (0x11 ∷ rest)
              broken
              (output ++ header_frame (position zack (length done + length c)))
              (reports ++ (name, length done + length c, size) ∷ []),
        )
  unfolding on_data data_loop try_wire
  on_data-calm spent start name size done c rest output reports bytes fits room small =
      let input = 0x11 ∷ (data_packet c zcrcw false ++ rest) in
      rw (position_of-position zdata (length done) (omega arith)) (
        rw (==_refl (length done)) (
          ap
            (λ x.
              continue (caught (calm (writing start name size done) input broken output reports) x)
                (data_step (data_loop spent (length input) false)))
            (packet_calm c rest (writing start name size done) output reports bytes fits)
          ∙ write_calm (data_loop spent (length input) false) start name size done c (0x11 ∷ rest)
              output reports room))

  module _ (spent : Receive Unit) where
    -- one header and what is done about it
    round :
        (fuel : ℕ) (noise : Bytes) (kind pos : ℕ) (l : Local) (rest output : Bytes)
        (reports : List (Bytes × ℕ × ℕ)) {over : Bool} {r : Receiver}
        → All IsNoise noise
        → length noise < max_skipped
        → kind < 256
        → on_header spent
            (position kind pos)
            (calm l (header_end (position kind pos) ++ rest) broken output reports)
          ≡ (ok over, r)
        → receive_loop spent
            (suc fuel)
            (calm l (noise ++ (header_frame (position kind pos) ++ rest)) broken output reports)
          ≡ (if over then pure tt else receive_loop spent fuel) r
    unfolding receive_loop check_context take_context
    round fuel noise kind pos l rest output reports n fits k e =
        next (on_wire read_header) _ (header_calm noise kind pos l rest output reports n fits k)
        ∙ next (on_header spent (position kind pos))
            (λ over. if over then pure tt else receive_loop spent fuel) e

    data_round :
        (fuel : ℕ) (start : Local) (name : Bytes) (size : ℕ) (done c rest output : Bytes)
        (reports : List (Bytes × ℕ × ℕ))
        → Chunk c
        → length done + length c ≤ size
        → size ≤ max_u32
        → receive_loop spent (suc fuel) (
            calm
              (writing start name size done)
              (0x11
                ∷ (header_frame (position zdata (length done))
                    ++ (data_packet c zcrcw false ++ rest)))
              broken
              output
              reports)
          ≡ receive_loop spent fuel (
              calm
                (writing start name size (done ++ c))
                (0x11 ∷ rest)
                broken
                (output ++ header_frame (position zack (length done + length c)))
                (reports ++ (name, length done + length c, size) ∷ []))
    unfolding on_header
    data_round fuel start name size done c rest output reports (bytes, fits) room small =
        round fuel (0x11 ∷ []) zdata (length done) (writing start name size done)
          (data_packet c zcrcw false ++ rest) output reports (omega arith) (omega arith)
          (omega arith)
          (ap (λ x. continue x (λ _. pure false))
            (on_data-calm spent start name size done c rest output reports bytes fits room small))

    pub chunks_calm :
        (chunks : List Bytes) (fuel more : ℕ) (start : Local) (name : Bytes) (size : ℕ)
        (done tail output : Bytes) (reports : List (Bytes × ℕ × ℕ))
        → All Chunk chunks
        → length done + total chunks ≤ size
        → size ≤ max_u32
        → fuel ≡ length chunks + more
        → receive_loop spent fuel (
            calm
              (writing start name size done)
              (0x11 ∷ stream (length done) chunks tail)
              broken
              output
              reports)
          ≡ receive_loop spent more (
              calm
                (writing start name size (done ++ joined chunks))
                (0x11 ∷ tail)
                broken
                (output ++ acks (length done) chunks)
                (reports ++ marks name size (length done) chunks))
    unfolding stream acks marks joined total
    chunks_calm [] fuel more start name size done tail output reports all room small e =
        let same : fuel ≡ more = omega arith in
        rw (same, append-nil done, append-nil output, append-nil reports) refl
    chunks_calm (c ∷ chunks) zero more start name size done tail output reports all room small e =
        absurd (omega arith)
    chunks_calm (c ∷ chunks) (suc fuel) more start name size done tail output reports (this, all)
          room small e =
        data_round fuel start name size done c (stream (length done + length c) chunks tail) output
          reports this (omega arith) small
        ∙ rw (← length-append done c) (
            let pos = length (done ++ c) in
            let frame = header_frame (position zack pos) in
            rw
              (
                ← append_assoc done c (joined chunks),
                ← append_assoc output frame (acks pos chunks),
                ← append_assoc reports ((name, pos, size) ∷ []) (marks name size pos chunks),
              )
              (chunks_calm chunks fuel more start name size (done ++ c) tail (output ++ frame)
                (reports ++ (name, pos, size) ∷ []) all (omega (arith, length-append done c)) small
                (omega arith)))

    on_file-calm :
        (l : Local) (name : Bytes) (size : ℕ) (rest output : Bytes) (reports : List (Bytes × ℕ × ℕ))
        → All IsByte (metadata name size)
        → length (metadata name size) ≤ max_packet
        → safe_name name ≡ true
        → size ≤ max_u32
        → lookup name l.disk ≡ none
        → on_file (position zfile 0) (
            calm l
              (0x11 ∷ (data_packet (metadata name size) zcrcw false ++ rest))
              broken
              output
              reports)
          ≡ (
            ok tt,
            calm
                (writing l name size [])
                (0x11 ∷ rest)
                broken
                (output ++ header_frame (position zrpos 0))
                reports,
          )
    unfolding on_file opened_file on_wire system_call take_system create resume_existing reply
        write_header write
    on_file-calm l name size rest output reports bytes fits safe small absent =
        rw (packet_calm (metadata name size) rest l output reports bytes fits)
          (rw (parse_metadata-metadata name size safe small) (rw absent (rw absent refl)))

    pub file_round :
        (fuel : ℕ) (l : Local) (name : Bytes) (size : ℕ) (rest output : Bytes)
        (reports : List (Bytes × ℕ × ℕ))
        → All IsByte (metadata name size)
        → length (metadata name size) ≤ max_packet
        → safe_name name ≡ true
        → size ≤ max_u32
        → lookup name l.disk ≡ none
        → receive_loop spent (suc fuel) (
            calm l
              (0x11
                ∷ (header_frame (position zfile 0)
                    ++ (data_packet (metadata name size) zcrcw false ++ rest)))
              broken
              output
              reports)
          ≡ receive_loop spent fuel (
              calm
                (writing l name size [])
                (0x11 ∷ rest)
                broken
                (output ++ header_frame (position zrpos 0))
                reports)
    unfolding on_header
    file_round fuel l name size rest output reports bytes fits safe small absent =
        round fuel (0x11 ∷ []) zfile 0 l (data_packet (metadata name size) zcrcw false ++ rest)
          output reports (omega arith) (omega arith) (omega arith)
          (ap (λ x. continue x (λ _. pure false))
            (on_file-calm l name size rest output reports bytes fits safe small absent))

    on_eof-calm :
        (start : Local) (name : Bytes) (size : ℕ) (done rest output : Bytes)
        (reports : List (Bytes × ℕ × ℕ))
        → length done ≡ size
        → size ≤ max_u32
        → on_header spent
            (position zeof size)
            (calm (writing start name size done) (0x11 ∷ rest) broken output reports)
          ≡ (
            ok false,
            calm
                (record (writing start name size done) {
                  file = false;
                  handles = start.handles + 1 - 1;
                })
                (0x11 ∷ rest)
                broken
                (output ++ header_frame ready)
                reports,
          )
    unfolding on_header on_eof system_call take_system reply on_wire write_header write
    on_eof-calm start name size done rest output reports whole small =
        rw (position_of-position zeof size (omega arith), whole) (rw (==_refl size) refl)

    pub eof_round :
        (fuel : ℕ) (start : Local) (name : Bytes) (size : ℕ) (done rest output : Bytes)
        (reports : List (Bytes × ℕ × ℕ))
        → length done ≡ size
        → size ≤ max_u32
        → receive_loop spent (suc fuel) (
            calm
              (writing start name size done)
              (0x11 ∷ (header_frame (position zeof size) ++ rest))
              broken
              output
              reports)
          ≡ receive_loop spent fuel (
              calm
                (record (writing start name size done) {
                  file = false;
                  handles = start.handles + 1 - 1;
                })
                (0x11 ∷ rest)
                broken
                (output ++ header_frame ready)
                reports)
    eof_round fuel start name size done rest output reports whole small =
        round fuel (0x11 ∷ []) zeof size (writing start name size done) rest output reports
          (omega arith) (omega arith) (omega arith)
          (on_eof-calm start name size done rest output reports whole small)

    on_fin-calm :
        (l : Local) (output : Bytes) (reports : List (Bytes × ℕ × ℕ))
        → l.file ≡ false
        → on_header spent (position zfin 0) (calm l (codes "OO") broken output reports)
          ≡ (ok true, calm l [] broken (output ++ header_frame (position zfin 0)) reports)
    unfolding on_header on_fin reply on_wire write_header write final_loop final_step try_wire raw
    on_fin-calm l output reports shut = rw shut refl

    pub fin_round :
        (fuel : ℕ) (l : Local) (output : Bytes) (reports : List (Bytes × ℕ × ℕ))
        → l.file ≡ false
        → receive_loop spent
            (suc fuel)
            (calm l (0x11 ∷ (header_frame (position zfin 0) ++ codes "OO")) broken output reports)
          ≡ (ok tt, calm l [] broken (output ++ header_frame (position zfin 0)) reports)
    fin_round fuel l output reports shut =
        round fuel (0x11 ∷ []) zfin 0 l (codes "OO") output reports (omega arith) (omega arith)
          (omega arith) (on_fin-calm l output reports shut)
