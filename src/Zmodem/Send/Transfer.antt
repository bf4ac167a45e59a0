-- ===== src/Zmodem/Send/Transfer.antt =====
-- `Send` on what `Receive` answers.
use nex_shell.Prelude.{
  take-append-drop, ℕ, zero, suc, ◌+◌, ◌<◌, ◌≤◌, ◌≡◌, refl, sym, ◌∙◌, ap, true, false, List, [],
  ◌∷◌, ◌++◌, arith, Bytes, length, All, append-nil, append_assoc, drop-append, take, drop, ltb,
  ==_refl, length-append, ok, continue, ◌>>=◌,
}
use nex_shell.Zmodem.Data.{data_packet, write_data}
use nex_shell.Zmodem.Disk.{Disk}
use nex_shell.Zmodem.Files.{base, max_u32}
use nex_shell.Zmodem.Headers.{header_frame, header_end, read_header, write_header, max_skipped}
use nex_shell.Zmodem.Headers.RoundTrip.{IsNoise}
use nex_shell.Zmodem.Send.{
  Sender, Send, on_wire, check_context, take_context, system_call, take_system, put, report,
  advance, on_answer, buffer_size, send_packet, send_data,
}
use nex_shell.Zmodem.Send.Pieces.{pieces, length-drop-lt}
use nex_shell.Zmodem.Transfer.{stream, acks, marks, position_of-position, read_position}
use nex_shell.Zmodem.Wire.{Error, Header, write, zdata, zack, zcrcw, position}

-- a sender whose calls all succeed
abbrev pub calm : Disk → Bytes → Error → Bytes → List (Bytes × ℕ × ℕ) → Sender
calm disk input broken output reports = record {
  disk = disk;
  wire = record { input = input; broken = broken; output = output; refusals = [] };
  contexts = [];
  system = [];
  reports = reports;
}

-- what is left of the resume mark before the first acknowledgement
abbrev pub gap : Bytes → List Bytes → Bytes
gap noise [] = noise
gap noise (c ∷ chunks) = []

module _ {A B : Type 0} where
  pub next :
      (m : Send A) (f : A → Send B) {r r' : Sender} {a : A}
      → m r ≡ (ok a, r')
      → (m >>= f) r ≡ f a r'
  next m f e = ap (λ x. continue x f) e

module _ (broken : Error) (disk : Disk) where
  pub put-calm :
      (h : Header) (input output : Bytes) (reports : List (Bytes × ℕ × ℕ))
      → put h (calm disk input broken output reports)
        ≡ (ok tt, calm disk input broken (output ++ header_frame h) reports)
  unfolding put on_wire write_header write
  put-calm h input output reports = refl

  pub data_calm :
      (b input output : Bytes) (reports : List (Bytes × ℕ × ℕ))
      → on_wire (write_data b zcrcw false) (calm disk input broken output reports)
        ≡ (ok tt, calm disk input broken (output ++ data_packet b zcrcw false) reports)
  unfolding on_wire write_data write
  data_calm b input output reports = refl

  pub header_calm :
      (noise : Bytes) (kind pos : ℕ) (rest output : Bytes) (reports : List (Bytes × ℕ × ℕ))
      → All IsNoise noise
      → length noise < max_skipped
      → kind < 256
      → on_wire read_header
          (calm disk (noise ++ (header_frame (position kind pos) ++ rest)) broken output reports)
        ≡ (
          ok (position kind pos),
          calm disk (header_end (position kind pos) ++ rest) broken output reports,
        )
  unfolding on_wire
  header_calm noise kind pos rest output reports n fits k =
      ap
        (λ x.
          (x.0, record { disk = disk; wire = x.1; contexts = []; system = []; reports = reports }))
        (read_position (record { input = []; broken = broken; output = output; refusals = [] })
          noise kind pos rest n fits k)

  -- one packet that is acknowledged
  answer_calm :
      (again : ℕ → ℕ → Send ℕ) (name : Bytes) (size pos n : ℕ) (rest output : Bytes)
      (reports : List (Bytes × ℕ × ℕ))
      → pos + n ≤ max_u32
      → on_answer again name size pos 0 n
          (position zack (pos + n))
          (calm disk rest broken output reports)
        ≡ again
            (pos + n)
            0
            (calm disk rest broken output (reports ++ (base name, pos + n, size) ∷ []))
  unfolding on_answer report
  answer_calm again name size pos n rest output reports small =
      let wraps : advance pos n ≡ pos + n = omega arith in
      rw (position_of-position zack (pos + n) (omega arith), wraps) (rw (==_refl (pos + n)) refl)

  packet_calm :
      (again : ℕ → ℕ → Send ℕ) (name content : Bytes) (pos : ℕ) (x : ℕ)
      (b noise rest output : Bytes) (reports : List (Bytes × ℕ × ℕ))
      → All IsNoise noise
      → length noise < max_skipped
      → pos + length (x ∷ b) ≤ max_u32
      → send_packet again name content pos 0 (x ∷ b) (
          calm disk
            (noise ++ (header_frame (position zack (pos + length (x ∷ b))) ++ rest))
            broken
            output
            reports)
        ≡ again (pos + length (x ∷ b)) 0 (
            calm disk rest broken
              ((output ++ header_frame (position zdata pos)) ++ data_packet (x ∷ b) zcrcw false)
              (reports ++ (base name, pos + length (x ∷ b), length content) ∷ []))
  unfolding send_packet
  packet_calm again name content pos x b noise rest output reports n fits small =
      let end = pos + length (x ∷ b) in
      let o1 = output ++ header_frame (position zdata pos) in
      let o2 = o1 ++ data_packet (x ∷ b) zcrcw false in
      let input = noise ++ (header_frame (position zack end) ++ rest) in
      next (put (position zdata pos)) _ (put-calm (position zdata pos) input output reports)
      ∙ next (on_wire (write_data (x ∷ b) zcrcw false)) _ (data_calm (x ∷ b) input o1 reports)
      ∙ next (on_wire read_header) (on_answer again name (length content) pos 0 (length (x ∷ b)))
          (header_calm noise zack end rest o2 reports n fits (omega arith))
      ∙ answer_calm again name (length content) pos (length (x ∷ b)) rest o2 reports small

  send_data_end :
      (spent : Send ℕ) (fuel : ℕ) (name content done : Bytes) (s : Sender)
      → content ≡ done
      → send_data spent (suc fuel) name content (length done) 0 s ≡ (ok (length content), s)
  unfolding send_data
  send_data_end spent fuel name content done s e =
      let over : ltb (length done) (length content) ≡ false = rw e (ground arith) in
      rw over (rw e refl)

  send_data_more :
      (spent : Send ℕ) (fuel : ℕ) (name content done : Bytes) (x : ℕ) (b input output : Bytes)
      (reports : List (Bytes × ℕ × ℕ))
      → content ≡ done ++ (x ∷ b)
      → send_data spent
          (suc fuel)
          name
          content
          (length done)
          0
          (calm disk input broken output reports)
        ≡ send_packet
            (send_data spent fuel name content)
            name
            content
            (length done)
            0
            (take buffer_size (x ∷ b))
            (calm disk input broken output reports)
  unfolding send_data check_context take_context system_call take_system
  send_data_more spent fuel name content done x b input output reports e =
      let more : ltb (length done) (length content) ≡ true =
        rw (e, length-append done (x ∷ b)) (ground arith) in
      let piece : take buffer_size (drop (length done) content) ≡ take buffer_size (x ∷ b) =
        rw (e, drop-append done (x ∷ b)) refl in
      rw (more, piece) refl

  gap-nil : (chunks : List Bytes) → gap [] chunks ≡ []
  gap-nil [] = refl
  gap-nil (c ∷ chunks) = refl

  regroup :
      (run : ℕ → Send ℕ) (name done c output tail : Bytes) (size : ℕ)
      (reports : List (Bytes × ℕ × ℕ)) (chunks : List Bytes)
      → let pos = length (done ++ c) in
        let now =
          (output ++ header_frame (position zdata (length done))) ++ data_packet c zcrcw false in
        let said = reports ++ (name, pos, size) ∷ [] in
        run pos (calm disk (acks pos chunks ++ tail) broken now said) ≡ (
          ok size,
          calm disk
              (gap [] chunks ++ tail)
              broken
              (now ++ stream pos chunks [])
              (said ++ marks name size pos chunks),
        )
        → let pos = length done + length c in
          run pos (
            calm disk
              (acks pos chunks ++ tail)
              broken
              ((output ++ header_frame (position zdata (length done))) ++ data_packet c zcrcw false)
              (reports ++ (name, pos, size) ∷ []))
          ≡ (
            ok size,
            calm disk tail broken
                (output ++ stream (length done) (c ∷ chunks) [])
                (reports ++ marks name size (length done) (c ∷ chunks)),
          )
  unfolding stream marks
  regroup run name done c output tail size reports chunks h =
      let pos = length (done ++ c) in
      let head = header_frame (position zdata (length done)) in
      let packet = data_packet c zcrcw false in
      rw (← length-append done c) (
        rw
          (
            gap-nil chunks,
            append_assoc (output ++ head) packet (stream pos chunks []),
            append_assoc output head (packet ++ stream pos chunks []),
            append_assoc reports ((name, pos, size) ∷ []) (marks name size pos chunks),
          )
          at h)

  pub send_data-calm :
      (n fuel : ℕ) (spent : Send ℕ) (name content done rest noise tail output : Bytes)
      (reports : List (Bytes × ℕ × ℕ))
      → content ≡ done ++ rest
      → length rest ≤ n
      → length (pieces n rest) < fuel
      → length content ≤ max_u32
      → All IsNoise noise
      → length noise < max_skipped
      → send_data spent fuel name content
          (length done)
          0
          (calm disk (noise ++ (acks (length done) (pieces n rest) ++ tail)) broken output reports)
        ≡ (
          ok (length content),
          calm disk
              (gap noise (pieces n rest) ++ tail)
              broken
              (output ++ stream (length done) (pieces n rest) [])
              (reports ++ marks (base name) (length content) (length done) (pieces n rest)),
        )
  unfolding pieces stream acks marks
  send_data-calm n zero spent name content done rest noise tail output reports e le more small quiet
        fits =
      absurd (omega arith)
  send_data-calm zero (suc fuel) spent name content done [] noise tail output reports e le more
        small quiet fits =
      rw (append-nil output, append-nil reports)
        (send_data_end spent fuel name content done _ (e ∙ append-nil done))
  send_data-calm zero (suc fuel) spent name content done (x ∷ b) noise tail output reports e le more
        small quiet fits =
      absurd (omega arith)
  send_data-calm (suc n) (suc fuel) spent name content done [] noise tail output reports e le more
        small quiet fits =
      rw (append-nil output, append-nil reports)
        (send_data_end spent fuel name content done _ (e ∙ append-nil done))
  send_data-calm (suc n) (suc fuel) spent name content done (x ∷ b) noise tail output reports e le
        more small quiet fits =
      let c = take buffer_size (x ∷ b) in
      let later = drop buffer_size (x ∷ b) in
      let e' : content ≡ (done ++ c) ++ later =
        e
        ∙ ap (λ r. done ++ r) (sym (take-append-drop buffer_size (x ∷ b)))
        ∙ sym (append_assoc done c later) in
      let size : length (done ++ c) ≤ length content =
        rw (e', length-append (done ++ c) later) (omega arith) in
      let end : length (done ++ c) ≡ length done + length c = length-append done c in
      send_data_more spent fuel name content done x b _ output reports e
      ∙ rw
          (append_assoc (header_frame (position zack (length done + length c)))
            (acks (length done + length c) (pieces n later)) tail)
          (packet_calm (send_data spent fuel name content) name content (length done) x
              (take 8191 b) noise (acks (length done + length c) (pieces n later) ++ tail) output
              reports quiet fits (omega arith)
            ∙ regroup (λ pos. send_data spent fuel name content pos 0) (base name) done c output
                tail (length content) reports (pieces n later)
                (send_data-calm n fuel spent name content (done ++ c) later [] tail
                  ((output ++ header_frame (position zdata (length done)))
                    ++ data_packet c zcrcw false)
                  (reports ++ (base name, length (done ++ c), length content) ∷ []) e'
                  (omega (arith, length-drop-lt 8191 x b)) (omega arith) small tt (omega arith)))
