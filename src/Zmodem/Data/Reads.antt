-- ===== src/Zmodem/Data/Reads.antt =====
-- `ReadData` writes nothing, takes a byte at least for each packet, and accepts no packet that is
-- too large.
use nex_shell.Prelude.{
  ℕ, zero, suc, ◌+◌, ◌≤◌, ◌<◌, ◌≡◌, Bool, true, false, not, ◌&&◌, [], ◌∷◌, ◌++◌, arith, ◌==◌, leb,
  Bytes, length, length-append, ok, Yields, Yields-pure, Yields-fail, Yields-if, Yields-bind,
}
use nex_shell.Zmodem.Crc.{crc16, checksum_ieee}
use nex_shell.Zmodem.Data.{
  u16_of, u32_of, data_code, read_check, read_data_loop, max_packet, read_data,
}
use nex_shell.Zmodem.Escape.{read_escaped}
use nex_shell.Zmodem.Headers.Reads.{Reads-read_escaped}
use nex_shell.Zmodem.Wire.{
  Codec, packet_too_large, data_crc32_mismatch, data_crc16_mismatch, zdle, zcrce, zcrcw, raw,
}
use nex_shell.Zmodem.Wire.Reads.{
  Reads, Takes, Takes-fail, Takes-Reads, Reads-if, Reads-bind, Takes-bind, Takes-raw, read_rules,
}

Reads-data_code : (v : ℕ) → Reads (data_code v)
unfolding data_code
Reads-data_code v = search read_rules depth 10

Reads-read_check :
    (use_crc32 : Bool) (payload : Bytes) (v : ℕ) → Reads (read_check use_crc32 payload v)
unfolding read_check
Reads-read_check true payload v = search (read_rules, Reads-read_escaped)
Reads-read_check false payload v = search (read_rules, Reads-read_escaped)

Takes-read_data_loop :
    (room : ℕ) (use_crc32 : Bool) (payload : Bytes) → Takes (read_data_loop room use_crc32 payload)
unfolding read_data_loop
Takes-read_data_loop zero use_crc32 payload = Takes-fail packet_too_large
Takes-read_data_loop (suc room) use_crc32 payload =
    let again = λ (v : ℕ). Takes-Reads (Takes-read_data_loop room use_crc32 (payload ++ v ∷ [])) in
    Takes-bind Takes-raw λ b. Reads-if (not (b == zdle)) (again b) (
      Reads-bind (Takes-Reads Takes-raw) λ v.
        Reads-if (leb zcrce v && leb v zcrcw) (Reads-read_check use_crc32 payload v)
          (Reads-bind (Reads-data_code v) again))

pub Takes-read_data : (use_crc32 : Bool) → Takes (read_data use_crc32)
unfolding read_data
Takes-read_data use_crc32 = Takes-read_data_loop (max_packet + 1) use_crc32 []

-- What a read of data may return when it starts with `room` bytes to go.
record Accepted (room : ℕ) (r : Bytes × ℕ) : Type 0 where
  size : length r.0 < room
  mark_ge : zcrce ≤ r.1
  mark_le : r.1 ≤ zcrcw

read_check-Accepted :
    (use_crc32 : Bool) (payload : Bytes) (v room : ℕ)
    → length payload < room
    → zcrce ≤ v
    → v ≤ zcrcw
    → Yields (Accepted room) (read_check use_crc32 payload v)
unfolding read_check
read_check-Accepted true payload v room size lo hi =
    let accepted : Accepted room (payload, v) = record {
      size = size;
      mark_ge = lo;
      mark_le = hi;
    } in
    Yields-bind (read_escaped 4) λ check.
      Yields-if (checksum_ieee (payload ++ v ∷ []) == u32_of check)
        (λ _. Yields-pure (payload, v) accepted) (λ _. Yields-fail data_crc32_mismatch)
read_check-Accepted false payload v room size lo hi =
    let accepted : Accepted room (payload, v) = record {
      size = size;
      mark_ge = lo;
      mark_le = hi;
    } in
    Yields-bind (read_escaped 2) λ check.
      Yields-if (crc16 (payload ++ v ∷ []) == u16_of check) (λ _. Yields-pure (payload, v) accepted)
        (λ _. Yields-fail data_crc16_mismatch)

read_data_loop-Accepted :
    (room : ℕ) (use_crc32 : Bool) (payload : Bytes) (total : ℕ)
    → length payload + room ≡ total
    → Yields (Accepted total) (read_data_loop room use_crc32 payload)
unfolding read_data_loop
read_data_loop-Accepted zero use_crc32 payload total e = Yields-fail packet_too_large
read_data_loop-Accepted (suc room) use_crc32 payload total e =
    let again = λ (v : ℕ).
      read_data_loop-Accepted room use_crc32 (payload ++ v ∷ []) total
        (omega (arith, length-append payload (v ∷ []))) in
    Yields-bind raw λ b.
      Yields-if (not (b == zdle)) (λ _. again b)
        (λ _. Yields-bind raw λ v.
          Yields-if (leb zcrce v && leb v zcrcw)
            (λ mark.
              read_check-Accepted use_crc32 payload v total (omega arith) (ground arith)
                (ground arith))
            (λ _. Yields-bind (data_code v) again))

-- A packet that `ReadData` accepts holds at most 1 MiB and ends with one of the four end marks,
-- whatever the peer sends.
pub read_data_bounds :
    (use_crc32 : Bool) (c : Codec) (payload : Bytes) (end : ℕ)
    → (read_data use_crc32 c).0 ≡ ok (payload, end)
    → (length payload ≤ max_packet) × (zcrce ≤ end) × (end ≤ zcrcw)
unfolding read_data
read_data_bounds use_crc32 c payload end h =
    let a =
      (read_data_loop-Accepted (max_packet + 1) use_crc32 [] (max_packet + 1) (omega arith)).at c _
        h in
    (omega arith, a.mark_ge, a.mark_le)
