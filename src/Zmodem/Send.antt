-- ===== src/Zmodem/Send.antt =====
-- internal/transfer/zmodem/transfer.go: `Send` and `sendFile`.
pub mod Pieces
pub mod Transfer
pub mod Whole
pub mod Fuel
use nex_shell.Prelude.{
  ℕ, zero, suc, ◌+◌, ◌%◌, ◌^◌, Bool, true, false, not, ◌||◌, Option, none, some, List, [], ◌∷◌,
  ◌++◌, ◌==◌, ltb, if◌then◌else◌, Bytes, length, take, drop, codes, Result, ok, err, Exec, pure,
  fail, gets, ◌>>=◌, ◌>>◌,
}
use nex_shell.Zmodem.Crc.{checksum_ieee}
use nex_shell.Zmodem.Data.{write_data}
use nex_shell.Zmodem.Disk.{Node, Disk, lookup}
use nex_shell.Zmodem.Files.{base, max_u32, metadata}
use nex_shell.Zmodem.Headers.{write_header, read_header, send_cancel}
use nex_shell.Zmodem.Wire.{
  Error, not_exist, unexpected_eof, unexpected_kind, not_regular, invalid_crc_range,
  invalid_resume_offset, incorrect_ack_position, invalid_restart_offset, too_many_retries,
  zfin_handshake_failed, out_of_fuel, zrqinit, zrinit, zack, zfile, zskip, zfin, zrpos, zdata, zeof,
  zcrc, zcrcw, Header, position_of, position, Codec, Wire, write,
}

-- `disk` are the files that the sender reads, by path. The other fields are as in the receiver.
pub record Sender : Type 0 where
  pub disk : Disk
  pub wire : Codec
  pub contexts : List (Option Error)
  pub system : List (Option Error)
  pub reports : List (Bytes × ℕ × ℕ)

abbrev pub Send : Type 0 → Type 0
Send A = Exec Error Sender A

abbrev with_wire : {A : Type 0} → Sender → Result Error A × Codec → Result Error A × Sender
with_wire s (a, c) = (a, record s { wire = c })

pub on_wire : {A : Type 0} → Wire A → Send A
on_wire m s = with_wire s (m s.wire)

take_context : List (Option Error) → Send Unit
take_context [] s = (ok tt, s)
take_context (none ∷ later) s = (ok tt, record s { contexts = later })
take_context (some e ∷ later) s = (err e, record s { contexts = later })

-- `ctx.Err()`
pub check_context : Send Unit
unfolding take_context
check_context s = take_context s.contexts s

take_system : List (Option Error) → Send Unit
take_system [] s = (ok tt, s)
take_system (none ∷ later) s = (ok tt, record s { system = later })
take_system (some e ∷ later) s = (err e, record s { system = later })

-- a call of the operating system that may fail
pub system_call : Send Unit
unfolding take_system
system_call s = take_system s.system s

pub put : Header → Send Unit
put h = on_wire (write_header h)

pub report : Bytes → ℕ → ℕ → Send Unit
report name done size s = (ok tt, record s { reports = s.reports ++ (base name, done, size) ∷ [] })

-- The answers to the file header: where to start, or `none` to skip the file. The error of
-- `f.Seek` is dropped, so that it is no `system_call`.
pub await_start : ℕ → Bytes → Send (Option ℕ)
await_start zero content = pure (some 0)
await_start (suc tries) content = do
  h ← on_wire read_header
  if h.kind == zskip
      then pure none
      else if h.kind == zcrc
      then (let n = if position_of h == 0 then length content else position_of h in
          if ltb (length content) n then fail invalid_crc_range else do
            system_call
            put (position zcrc (checksum_ieee (take n content)))
            await_start tries content)
      else if h.kind == zrpos
      then pure (some (position_of h))
      else await_start tries content

-- the addition on `uint32`
abbrev pub advance : ℕ → ℕ → ℕ
advance pos n = (pos + n) % 2 ^ 32

-- the switch on the answer to a packet of `n` bytes; `again` goes on, from an offset, with a count
-- of retries
pub on_answer : (ℕ → ℕ → Send ℕ) → Bytes → ℕ → ℕ → ℕ → ℕ → Header → Send ℕ
on_answer again name size pos retries n h =
    if h.kind == zack
    then (if not (position_of h == advance pos n)
        then fail incorrect_ack_position
        else do report name (advance pos n) size; again (advance pos n) 0)
    else if h.kind == zrpos
    then (if ltb size (position_of h)
        then fail invalid_restart_offset
        else if ltb 20 (suc retries)
        then fail too_many_retries
        else again (position_of h) (suc retries))
    else fail (unexpected_kind h.kind)

abbrev pub buffer_size : ℕ
buffer_size = 8192

-- one packet and its answer
pub send_packet : (ℕ → ℕ → Send ℕ) → Bytes → Bytes → ℕ → ℕ → Bytes → Send ℕ
send_packet again name content pos retries [] = fail unexpected_eof
send_packet again name content pos retries (b ∷ chunk) = do
  put (position zdata pos)
  on_wire (write_data (b ∷ chunk) zcrcw false)
  h ← on_wire read_header
  on_answer again name (length content) pos retries (length (b ∷ chunk)) h

-- The loop over the packets, which returns the last offset. It has no bound in the source. Here it
-- ends after `fuel` rounds with `spent`.
pub send_data : Send ℕ → ℕ → Bytes → Bytes → ℕ → ℕ → Send ℕ
send_data spent zero name content pos retries = spent
send_data spent (suc fuel) name content pos retries =
    if not (ltb pos (length content)) then pure pos else do
      check_context
      system_call
      system_call
      send_packet (send_data spent fuel name content) name content pos retries
          (take buffer_size (drop pos content))

pub send_content : Send ℕ → Bytes → Bytes → Option ℕ → Send Unit
send_content spent name content none = pure tt
send_content spent name content (some start) =
    if ltb (length content) start then fail invalid_resume_offset else do
      fuel ← gets (λ s. suc (length s.wire.input))
      pos ← send_data spent fuel name content start 0
      put (position zeof pos)
      h ← on_wire read_header
      if not (h.kind == zrinit)
          then fail (unexpected_kind h.kind)
          else report name (length content) (length content)

-- behind `os.Open` and `f.Stat`
pub send_node : Send ℕ → Bytes → Option Node → Send Unit
send_node spent name none = fail not_exist
send_node spent name (some node) =
    if not node.regular || ltb max_u32 (length node.content) then fail not_regular else do
      put (position zfile 0)
      on_wire (write_data (metadata (base name) (length node.content)) zcrcw false)
      start ← await_start 20 node.content
      send_content spent name node.content start

pub send_file : Send ℕ → Bytes → Send Unit
send_file spent name = do
  system_call
  found ← gets (λ s. lookup name s.disk)
  system_call
  send_node spent name found

pub send_files : Send ℕ → List Bytes → Send Unit
send_files spent [] = pure tt
send_files spent (name ∷ names) = do check_context; send_file spent name; send_files spent names

-- the answers to the last `ZFIN`
pub finish : ℕ → Send Unit
finish zero = fail zfin_handshake_failed
finish (suc tries) = do
  h ← on_wire read_header
  if h.kind == zfin then on_wire (write (codes "OO")) else finish tries

-- the receiver's first header, read if the caller has not read it
pub invitation : Option Header → Send Header
invitation (some h) = pure h
invitation none = do put (position zrqinit 0); on_wire read_header

pub send_body : Send ℕ → List Bytes → Option Header → Send Unit
send_body spent names initial = do
  h ← invitation initial
  if not (h.kind == zrinit)
      then fail (unexpected_kind h.kind)
      else do send_files spent names; put (position zfin 0); finish 10

-- the deferred `Cancel`
abbrev or_cancel : Result Error (Unit {0}) × Sender → Result Error (Unit {0}) × Sender
or_cancel (ok u, s) = (ok u, s)
or_cancel (err e, s) = (err e, record s { wire = (send_cancel s.wire).1 })

abbrev pub no_fuel : Send ℕ
no_fuel = fail out_of_fuel

pub send : List Bytes → Option Header → Send Unit
send names initial s = or_cancel (send_body no_fuel names initial s)
