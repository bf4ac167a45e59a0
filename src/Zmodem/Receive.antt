-- ===== src/Zmodem/Receive.antt =====
-- internal/transfer/zmodem/transfer.go: `Receive` and `readResumeCRC`.
pub mod Quiet
pub mod Keeps
pub mod Files
pub mod Session
pub mod Handles
pub mod Exits
pub mod Loop
pub mod Lean
pub mod Fuel
pub mod Transfer
pub mod Whole
use nex_shell.Prelude.{
  ℕ, zero, suc, ◌+◌, ◌-◌, ◌%◌, ◌^◌, Bool, true, false, not, ◌&&◌, ◌||◌, Option, none, some, List,
  [], ◌∷◌, ◌++◌, ◌==◌, ltb, if◌then◌else◌, Bytes, length, bytes_equal, Result, ok, err, Exec, pure,
  fail, gets, modify, ◌>>=◌, ◌>>◌,
}
use nex_shell.Zmodem.Crc.{checksum_ieee}
use nex_shell.Zmodem.Data.{read_data}
use nex_shell.Zmodem.Disk.{Node, Disk, lookup, store, write_at}
use nex_shell.Zmodem.Files.{parse_metadata}
use nex_shell.Zmodem.Headers.{write_header, read_header, send_cancel}
use nex_shell.Zmodem.Wire.{
  Error, eof, unexpected_kind, incompatible_destination, prefix_differs, data_without_file,
  unexpected_data_position, exceeds_size, incomplete_file, ended_before_completion,
  missing_final_oo, remote_aborted, metadata_changed, too_many_repeats, out_of_fuel, zrqinit,
  zrinit, zsinit, zack, zfile, zabort, zfin, zrpos, zdata, zeof, zcrc, zcrce, zcrcq, zcrcw, Header,
  position_of, position, Codec, Wire, raw,
}

-- The variables of `Receive` and the directory that it writes to. `file` says that the variable of that name holds
-- a handle, `handles` counts the handles that are open, and `lost` those that were replaced in the variable.
pub record Local : Type 0 where
  pub disk : Disk
  pub file : Bool
  pub name : Bytes
  pub size : ℕ
  pub position : ℕ
  pub handles : ℕ
  pub lost : ℕ

-- `contexts` and `system` are what the next calls of `ctx.Err` and of the operating system answer:
-- `none`, or past the end, no error. `reports` collects the calls of the progress callback.
pub record Receiver : Type 0 where
  pub local : Local
  pub open local use *
  pub wire : Codec
  pub contexts : List (Option Error)
  pub system : List (Option Error)
  pub reports : List (Bytes × ℕ × ℕ)

abbrev pub Receive : Type 0 → Type 0
Receive A = Exec Error Receiver A

abbrev with_wire : {A : Type 0} → Receiver → Result Error A × Codec → Result Error A × Receiver
with_wire r (a, c) = (a, record r { wire = c })

pub on_wire : {A : Type 0} → Wire A → Receive A
on_wire m r = with_wire r (m r.wire)

-- the same, with the error handed to the caller
abbrev pub caught :
    {A : Type 0} → Receiver → Result Error A × Codec → Result Error (Result Error A) × Receiver
caught r (a, c) = (ok a, record r { wire = c })

pub try_wire : {A : Type 0} → Wire A → Receive (Result Error A)
try_wire m r = caught r (m r.wire)

take_context : List (Option Error) → Receive Unit
take_context [] r = (ok tt, r)
take_context (none ∷ later) r = (ok tt, record r { contexts = later })
take_context (some e ∷ later) r = (err e, record r { contexts = later })

-- `ctx.Err()`
pub check_context : Receive Unit
unfolding take_context
check_context r = take_context r.contexts r

take_system : List (Option Error) → Receive Unit
take_system [] r = (ok tt, r)
take_system (none ∷ later) r = (ok tt, record r { system = later })
take_system (some e ∷ later) r = (err e, record r { system = later })

-- a call of the operating system that may fail
pub system_call : Receive Unit
unfolding take_system
system_call r = take_system r.system r

abbrev pub ready : Header
ready = record {
  kind = zrinit;
  payload = record { b0 = 0; b1 = 0; b2 = 0; b3 = 0x23 };
  crc32 = false;
}

pub reply : Header → Receive Unit
reply h = on_wire (write_header h)

abbrev pub set_local : (Local → Local) → Receive Unit
set_local f r = (ok tt, record r { local = f r.local })

abbrev pub or_error : {A : Type 0} → Result Error A → Receive A
or_error (ok a) = pure a
or_error (err e) = fail e

-- `readResumeCRC`: `repeats` file headers more are passed over, if their metadata is the same
pub read_resume_crc : ℕ → Bytes → Receive Header
read_resume_crc zero meta = fail too_many_repeats
read_resume_crc (suc repeats) meta = do
  check_context
  answer ← on_wire read_header
  if answer.kind == zcrc
      then pure answer
      else if not (answer.kind == zfile)
      then fail (unexpected_kind answer.kind)
      else do
        (again, _) ← on_wire (read_data answer.crc32)
        if not (bytes_equal again meta) then fail metadata_changed else read_resume_crc repeats meta

-- behind `Lstat`: what there is to resume, after the sender has confirmed its checksum
pub resume_existing : Bytes → ℕ → Option Node → Receive ℕ
resume_existing meta size none = pure 0
resume_existing meta size (some node) =
    if not node.regular || ltb size (length node.content)
    then fail incompatible_destination
    else if length node.content == 0
    then pure 0
    else do
      system_call
      system_call
      reply (position zcrc (length node.content))
      answer ← read_resume_crc 5 meta
      if not (position_of answer == checksum_ieee node.content)
          then fail prefix_differs
          else pure (length node.content)

-- `os.OpenFile` with `O_CREATE`: an empty file if there is none
abbrev pub created : Bytes → Option Node → Disk → Disk
created name none disk = store name (record { regular = true; content = [] }) disk
created name (some node) disk = disk

pub create : Bytes → Receive Unit
create name = set_local λ l. record l { disk = created name (lookup name l.disk) l.disk }

abbrev pub held : Bool → ℕ
held true = 1
held false = 0

-- The assignment of `os.OpenFile` to `file` drops the handle that the variable holds, which stays open.
abbrev pub let_go : Local → Local
let_go l = record l { file = false; lost = l.lost + held l.file }

abbrev pub take_hold : Local → Local
take_hold l = record l { file = true; handles = l.handles + 1 }

-- `file.Close` in `case ZEOF`, with the variable set to `nil`
abbrev pub shut_file : Local → Local
shut_file l = record l { file = false; handles = l.handles - 1 }

-- `case ZFILE`, from the metadata on
pub opened_file : Bytes → Bytes → ℕ → Receive Unit
opened_file meta name size = do
  set_local (λ l. record l { name = name; size = size; position = 0 })
  system_call
  existing ← gets (λ r. lookup name r.disk)
  at ← resume_existing meta size existing
  set_local (λ l. record l { position = at })
  set_local let_go
  system_call
  create name
  set_local take_hold
  system_call
  reply (position zrpos at)

-- `case ZFILE`
pub on_file : Header → Receive Unit
on_file h = do
  (meta, _) ← on_wire (read_data h.crc32)
  (name, size) ← or_error (parse_metadata meta)
  opened_file meta name size

abbrev pub appended : Option Node → Local → Bytes → Disk
appended none l b = l.disk
appended (some node) l b =
    store l.name (record node { content = write_at node.content l.position b }) l.disk

-- `file.Write`, with the count added to `position`, and the report. A write that fails, which is the
-- `system_call` before it, leaves the file as it was.
pub report : Receive Unit
report r = (ok tt, record r { reports = r.reports ++ (r.name, r.position, r.size) ∷ [] })

pub write_file : Bytes → Receive Unit
write_file b = do
  set_local (λ l. record l {
    disk = appended (lookup l.name l.disk) l b;
    position = l.position + length b;
  })
  report

pub acknowledge : ℕ → Receive Unit
acknowledge end = do
  r ← gets (λ r. r)
  if end == zcrcq || end == zcrcw then reply (position zack r.position) else pure tt

-- the data packets behind a `ZDATA` header
pub data_step : Receive Unit → Result Error (Bytes × ℕ) → Receive Unit
data_step again (err e) = do at ← gets (λ r. r.position); reply (position zrpos at)
data_step again (ok (b, end)) = do
  fits ← gets (λ r. not (ltb r.size (r.position + length b)))
  if not fits then fail exceeds_size else do
    system_call
    write_file b
    acknowledge end
    if end == zcrce || end == zcrcw then pure tt else again

-- The loops of the source have no bound. Here they end after `fuel` rounds with `spent`.
pub data_loop : Receive Unit → ℕ → Bool → Receive Unit
data_loop spent zero crc32 = spent
data_loop spent (suc fuel) crc32 = do
  packet ← try_wire (read_data crc32)
  data_step (data_loop spent fuel crc32) packet

-- `case ZDATA`
pub on_data : Receive Unit → Header → Receive Unit
on_data spent h = do
  r ← gets (λ r. r)
  if not r.file
      then fail data_without_file
      else if not (position_of h == r.position)
      then fail unexpected_data_position
      else data_loop spent (suc (length r.wire.input)) h.crc32

-- `case ZEOF`
pub on_eof : Header → Receive Unit
on_eof h = do
  r ← gets (λ r. r)
  if not r.file || not (position_of h == r.position) || not (r.position == r.size)
      then fail incomplete_file
      else do system_call; system_call; set_local shut_file; reply ready

-- the two letters that end a session; some peers close at once instead
pub final_step : Receive Unit → Result Error ℕ → Receive Unit
final_step again (err eof) = pure tt
final_step again (err e) = fail e
final_step again (ok b) =
    if not (b == b'O')
    then again
    else do next ← on_wire raw; if next == b'O' then pure tt else again

pub final_loop : ℕ → Receive Unit
final_loop zero = fail missing_final_oo
final_loop (suc count) = do b ← try_wire raw; final_step (final_loop count) b

-- `case ZFIN`
pub on_fin : Receive Unit
on_fin = do
  open_file ← gets (λ r. r.file)
  if open_file then fail ended_before_completion else do reply (position zfin 0); final_loop 32

-- the switch on a header; `true` when the session is over
pub on_header : Receive Unit → Header → Receive Bool
on_header spent h =
    if h.kind == zrqinit
    then (do reply ready; pure false)
    else if h.kind == zsinit
    then (do on_wire (read_data h.crc32); reply (position zack 1); pure false)
    else if h.kind == zfile
    then (do on_file h; pure false)
    else if h.kind == zdata
    then (do on_data spent h; pure false)
    else if h.kind == zeof
    then (do on_eof h; pure false)
    else if h.kind == zfin
    then (do on_fin; pure true)
    else if h.kind == zabort
    then fail remote_aborted
    else fail (unexpected_kind h.kind)

pub receive_loop : Receive Unit → ℕ → Receive Unit
receive_loop spent zero = spent
receive_loop spent (suc fuel) = do
  check_context
  h ← on_wire read_header
  over ← on_header spent h
  if over then pure tt else receive_loop spent fuel

-- the request that opened the transfer, read if the caller has not read it
pub request : Option Header → Receive Header
request (some h) = pure h
request none = on_wire read_header

pub receive_body : Receive Unit → Option Header → Receive Unit
receive_body spent initial = do
  system_call
  h ← request initial
  if not (h.kind == zrqinit)
      then fail (unexpected_kind h.kind)
      else do reply ready; fuel ← gets (λ r. suc (length r.wire.input)); receive_loop spent fuel

-- the deferred `file.Close`
abbrev pub released : Local → Local
released l = record l { handles = l.handles - held l.file }

abbrev pub or_close : Result Error (Unit {0}) × Receiver → Result Error (Unit {0}) × Receiver
or_close (a, r) = (a, record r { local = released r.local })

-- the deferred `Cancel`
abbrev pub or_cancel : Result Error (Unit {0}) × Receiver → Result Error (Unit {0}) × Receiver
or_cancel (ok u, r) = (ok u, r)
or_cancel (err e, r) = (err e, record r { wire = (send_cancel r.wire).1 })

abbrev pub no_fuel : Receive Unit
no_fuel = fail out_of_fuel

pub receive : Option Header → Receive Unit
receive initial r = or_cancel (or_close (receive_body no_fuel initial r))
