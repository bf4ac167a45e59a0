-- ===== src/Zmodem/Agree.antt =====
-- internal/transfer/zmodem/transfer.go: `Send` and `Receive` complete a transfer between them.
use nex_shell.Prelude.{
  ◌≤◌, ◌≡◌, sym, ◌∙◌, ap, true, false, none, some, [], ◌∷◌, arith, Bytes, length, All, ok,
}
use nex_shell.Zmodem.Crc.{IsByte}
use nex_shell.Zmodem.Disk.{Disk, lookup, lookup-store_self}
use nex_shell.Zmodem.Files.{base, metadata, safe_name, max_u32}
use nex_shell.Zmodem.Receive.{Receiver, receive}
use nex_shell.Zmodem.Receive.Whole.{receive-sent}
use nex_shell.Zmodem.Send.{Sender, send}
use nex_shell.Zmodem.Send.Pieces.{pieces, joined-pieces, pieces-Chunk}
use nex_shell.Zmodem.Send.Whole.{send-answered}
use nex_shell.Zmodem.Transfer.{total, joined, length-joined, sent, answered, Chunk}
use nex_shell.Zmodem.Wire.{eof}

-- Both ends before the transfer: the files of one, what the other is going to write, and no errors.
abbrev pub sender : Disk → Bytes → Sender
sender files input = record {
  disk = files;
  wire = record { input = input; broken = eof; output = []; refusals = [] };
  contexts = [];
  system = [];
  reports = [];
}

abbrev pub receiver : Disk → Bytes → Receiver
receiver files input = record {
  local = record {
    disk = files;
    file = false;
    name = [];
    size = 0;
    position = 0;
    handles = 0;
    lost = 0;
  };
  wire = record { input = input; broken = eof; output = []; refusals = [] };
  contexts = [];
  system = [];
  reports = [];
}

-- Two ends that read what the other writes, `to` and `from`, and both succeed.
pub record Completes (path content : Bytes) (files target : Disk) (to from : Bytes) : Type 0 where
  pub send_ok : (send (path ∷ []) none (sender files from)).0 ≡ ok tt
  pub send_output : (send (path ∷ []) none (sender files from)).1.wire.output ≡ to
  pub receive_ok : (receive none (receiver target to)).0 ≡ ok tt
  pub receive_output : (receive none (receiver target to)).1.wire.output ≡ from
  pub stored :
      lookup (base path) (receive none (receiver target to)).1.disk
      ≡ some (record { regular = true; content = content })

-- A regular file of at most 4 GiB - 1, whose base name is safe and not yet in the target directory and
-- whose metadata fit into a packet, is transferred: `Send` and `Receive`, each given the bytes that the
-- other writes, both return no error, and the file is stored with its content under its base name.
pub send-receive :
    (path content : Bytes) (files target : Disk)
    → lookup path files ≡ some (record { regular = true; content = content })
    → All IsByte content
    → length content ≤ max_u32
    → Chunk (metadata (base path) (length content))
    → safe_name (base path) ≡ true
    → lookup (base path) target ≡ none
    → Completes path content files target
        (sent (base path) (pieces (length content) content))
        (answered (pieces (length content) content))
send-receive path content files target found bytes small meta safe absent =
    let chunks = pieces (length content) content in
    let whole : joined chunks ≡ content = joined-pieces (length content) content (omega arith) in
    let size : total chunks ≡ length content = sym (length-joined chunks) ∙ ap length whole in
    let s = send-answered eof files path content [] [] found small in
    let r =
      receive-sent eof
        (record {
          disk = target;
          file = false;
          name = [];
          size = 0;
          position = 0;
          handles = 0;
          lost = 0;
        })
        (base path) chunks [] [] (pieces-Chunk (length content) content bytes) (rw size meta) safe
        (rw size small) absent in
    record {
      send_ok = ap (λ x. x.0) s;
      send_output = ap (λ x. x.1.wire.output) s;
      receive_ok = ap (λ x. x.0) r;
      receive_output = ap (λ x. x.1.wire.output) r;
      stored =
          ap (λ x. lookup (base path) x.1.disk) r
          ∙ lookup-store_self (base path) _ target
          ∙ ap (λ c. some (record { regular = true; content = c })) whole;
    }
