-- ===== src/Zmodem/Crc.antt =====
-- internal/transfer/zmodem/codec.go: `CRC16`; and the checksum of Go's `hash/crc32` that the frames
-- with four check bytes carry.
pub mod Detect
use nex_shell.Prelude.{
  ℕ, zero, suc, ◌*◌, ◌/◌, ◌%◌, ◌^◌, ◌<◌, bit_and, bit_xor, bit_xor-lt, ◌≡◌, refl, [], ◌∷◌, arith,
  ◌==◌, if◌then◌else◌, Bytes, All, codes,
}

abbrev pub IsByte : ℕ → Type 0
IsByte b = b < 256

-- one of the eight rounds
crc16_round : ℕ → ℕ
crc16_round crc =
    if bit_and crc 0x8000 == 0 then crc * 2 % 2 ^ 16 else bit_xor (crc * 2 % 2 ^ 16) 0x1021

crc16_rounds : ℕ → ℕ → ℕ
crc16_rounds zero crc = crc
crc16_rounds (suc i) crc = crc16_rounds i (crc16_round crc)

crc16_from : ℕ → Bytes → ℕ
crc16_from crc [] = crc
crc16_from crc (v ∷ b) = crc16_from (crc16_rounds 8 (bit_xor crc (v * 256 % 2 ^ 16))) b

unfoldable pub crc16 : Bytes → ℕ
unfolding crc16_from crc16_rounds crc16_round
crc16 = crc16_from 0

crc32_round : ℕ → ℕ
crc32_round crc = if bit_and crc 1 == 0 then crc / 2 else bit_xor (crc / 2) 0xedb88320

crc32_rounds : ℕ → ℕ → ℕ
crc32_rounds zero crc = crc
crc32_rounds (suc i) crc = crc32_rounds i (crc32_round crc)

crc32_from : ℕ → Bytes → ℕ
crc32_from crc [] = crc
crc32_from crc (v ∷ b) = crc32_from (crc32_rounds 8 (bit_xor crc v)) b

-- `crc32.ChecksumIEEE`, bit by bit
unfoldable pub checksum_ieee : Bytes → ℕ
unfolding crc32_from crc32_rounds crc32_round
checksum_ieee b = bit_xor (crc32_from 0xffff_ffff b) 0xffff_ffff

-- the check values that catalogues of these codes list
crc16_check : crc16 (codes "123456789") ≡ 0x31c3
unfolding crc16
crc16_check = refl

crc32_check : checksum_ieee (codes "123456789") ≡ 0xcbf43926
unfolding checksum_ieee
crc32_check = refl

crc16_round-lt : (crc : ℕ) → crc16_round crc < 2 ^ 16
unfolding crc16_round
crc16_round-lt crc = ground (arith, bit_xor-lt 16 (crc * 2 % 2 ^ 16) 0x1021)

crc16_rounds-lt : (i crc : ℕ) → crc < 2 ^ 16 → crc16_rounds i crc < 2 ^ 16
unfolding crc16_rounds
crc16_rounds-lt zero crc h = h
crc16_rounds-lt (suc i) crc h = crc16_rounds-lt i (crc16_round crc) (crc16_round-lt crc)

crc16_from-lt : (crc : ℕ) (b : Bytes) → crc < 2 ^ 16 → crc16_from crc b < 2 ^ 16
unfolding crc16_from
crc16_from-lt crc [] h = h
crc16_from-lt crc (v ∷ b) h =
    crc16_from-lt (crc16_rounds 8 (bit_xor crc (v * 256 % 2 ^ 16))) b
      (crc16_rounds-lt 8 _ (bit_xor-lt 16 crc (v * 256 % 2 ^ 16) h (omega arith)))

pub crc16-lt : (b : Bytes) → crc16 b < 2 ^ 16
unfolding crc16
crc16-lt b = crc16_from-lt 0 b (omega arith)

crc32_round-lt : (crc : ℕ) → crc < 2 ^ 32 → crc32_round crc < 2 ^ 32
unfolding crc32_round
crc32_round-lt crc h = ground (arith, bit_xor-lt 32 (crc / 2) 0xedb88320)

crc32_rounds-lt : (i crc : ℕ) → crc < 2 ^ 32 → crc32_rounds i crc < 2 ^ 32
unfolding crc32_rounds
crc32_rounds-lt zero crc h = h
crc32_rounds-lt (suc i) crc h = crc32_rounds-lt i (crc32_round crc) (crc32_round-lt crc h)

crc32_from-lt : (crc : ℕ) (b : Bytes) → crc < 2 ^ 32 → All IsByte b → crc32_from crc b < 2 ^ 32
unfolding crc32_from
crc32_from-lt crc [] h hb = h
crc32_from-lt crc (v ∷ b) h hb =
    crc32_from-lt (crc32_rounds 8 (bit_xor crc v)) b
      (crc32_rounds-lt 8 _ (bit_xor-lt 32 crc v h (omega arith))) hb.1

pub checksum_ieee-lt : (b : Bytes) → All IsByte b → checksum_ieee b < 2 ^ 32
unfolding checksum_ieee
checksum_ieee-lt b hb =
    bit_xor-lt 32 _ 0xffff_ffff (crc32_from-lt 0xffff_ffff b (omega arith) hb) (omega arith)
