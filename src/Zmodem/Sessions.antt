-- ===== src/Zmodem/Sessions.antt =====
-- The theorems on whole transfers at concrete inputs.
use nex_shell.Prelude.{
  ◌≡◌, ◌≤◌, ◌++◌, bytes_equal, refl, true, false, none, [], ◌∷◌, arith, ok, fail, Bytes, codes,
  length, Post, format_int,
}
use nex_shell.Zmodem.Agree.{receiver, Completes, send-receive}
use nex_shell.Zmodem.Disk.{Disk, lookup}
use nex_shell.Zmodem.Files.{base, metadata, safe_name, parse_metadata, max_u32}
use nex_shell.Zmodem.Files.Metadata.{parse_metadata-metadata, parse_metadata_safe}
use nex_shell.Zmodem.Receive.{Receiver, receive, receive_body, no_fuel, on_eof}
use nex_shell.Zmodem.Receive.Files.{Between}
use nex_shell.Zmodem.Receive.Fuel.{receive_body_fuel}
use nex_shell.Zmodem.Receive.Keeps.{Kept, Kept-refl}
use nex_shell.Zmodem.Receive.Exits.{receive-Done}
use nex_shell.Zmodem.Receive.Loop.{Done, on_eof_whole}
use nex_shell.Zmodem.Receive.Session.{Complete}
use nex_shell.Zmodem.Send.{send_body}
use nex_shell.Zmodem.Send.Fuel.{send_body_fuel}
use nex_shell.Zmodem.Send.Pieces.{pieces}
use nex_shell.Zmodem.Transfer.{sent, answered}
use nex_shell.Zmodem.Data.{data_packet}
use nex_shell.Zmodem.Headers.{header_frame}
use nex_shell.Zmodem.Wire.{eof, position, zeof, zrqinit, zfile, zfin, zcrcw}

abbrev text : Bytes
text = codes "hello, world"

abbrev note_path : Bytes
note_path = codes "/home/ann/notes.txt"

abbrev local_files : Disk
local_files = (note_path, record { regular = true; content = text }) ∷ []

abbrev downloads : Disk
downloads = (codes "old.txt", record { regular = true; content = codes "keep me" }) ∷ []

parse_metadata-metadata_example :
    parse_metadata (metadata (codes "notes.txt") 12) ≡ ok (codes "notes.txt", 12)
unfolding safe_name base bytes_equal
parse_metadata-metadata_example = parse_metadata-metadata (codes "notes.txt") 12 refl (omega arith)

send-receive_example :
    Completes note_path text local_files downloads
      (sent (base note_path) (pieces (length text) text))
      (answered (pieces (length text) text))
unfolding lookup safe_name base metadata format_int bytes_equal
send-receive_example =
    send-receive note_path text local_files downloads refl (omega arith) (omega arith)
      (omega arith, omega arith) refl refl

-- a second file is offered before the first has come, and is complete
abbrev two_offers : Bytes
two_offers =
    header_frame (position zrqinit 0)
    ++ header_frame (position zfile 0)
    ++ data_packet (metadata (codes "a.txt") 5) zcrcw false
    ++ header_frame (position zfile 0)
    ++ data_packet (metadata (codes "b.txt") 0) zcrcw false
    ++ header_frame (position zeof 0)
    ++ header_frame (position zfin 0)
    ++ codes "OO"

receive-Done_example :
    Post
      (λ _ s. Done downloads s.local × (s.handles ≡ s.lost))
      (λ s. Kept downloads s.disk × (s.handles ≡ s.lost))
      (receive none (receiver downloads two_offers))
receive-Done_example = receive-Done none (receiver downloads two_offers) refl refl

receive_body_fuel_example :
    receive_body (fail eof) none (receiver downloads (sent (codes "notes.txt") (text ∷ [])))
    ≡ receive_body no_fuel none (receiver downloads (sent (codes "notes.txt") (text ∷ [])))
receive_body_fuel_example =
    receive_body_fuel (fail eof) none (receiver downloads (sent (codes "notes.txt") (text ∷ [])))

send_body_fuel_example :
    send_body (fail eof) (note_path ∷ []) none
    ≡ send_body nex_shell.Zmodem.Send.no_fuel (note_path ∷ []) none
send_body_fuel_example = send_body_fuel (fail eof) (note_path ∷ []) none

-- at the end of a file that is written completely
abbrev at_end : Receiver
at_end = record (receiver downloads []) {
  local = record {
    disk = downloads;
    file = true;
    name = codes "old.txt";
    size = 7;
    position = 7;
    handles = 1;
    lost = 0;
  };
}

at_end-Between : Between downloads at_end.local
unfolding lookup safe_name base bytes_equal
at_end-Between = record {
  kept = Kept-refl downloads;
  opened = λ _. record {
    safe = refl;
    content = codes "keep me";
    stored = refl;
    at_end = refl;
    within = omega arith;
    size_le = omega arith;
  };
}

on_eof_whole_example :
    Post
      (λ _ s. Complete downloads s.local)
      (λ s. Kept downloads s.disk)
      (on_eof (position zeof 7) at_end)
on_eof_whole_example = on_eof_whole downloads (position zeof 7) at_end at_end-Between

parse_metadata_safe_example : (safe_name (codes "notes.txt") ≡ true) × (12 ≤ max_u32)
parse_metadata_safe_example =
    parse_metadata_safe (metadata (codes "notes.txt") 12) (codes "notes.txt") 12
      parse_metadata-metadata_example
