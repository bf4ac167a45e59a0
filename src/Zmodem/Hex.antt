-- ===== src/Zmodem/Hex.antt =====
-- `hex.AppendEncode` and `hex.Decode` of Go's encoding/hex, which the hexadecimal headers use.
use nex_shell.Prelude.{
  ℕ, ◌+◌, ◌-◌, ◌*◌, ◌/◌, ◌%◌, ◌<◌, ◌≡◌, refl, ◌&&◌, Option, none, some, [], ◌∷◌, arith, ltb, leb,
  if◌then◌else◌, Bytes, All,
}
use nex_shell.Zmodem.Crc.{IsByte}

hex_digit : ℕ → ℕ
hex_digit d = if ltb d 10 then d + 48 else d + 87

unfoldable pub hex_encode : Bytes → Bytes
unfolding hex_digit
hex_encode [] = []
hex_encode (v ∷ b) = hex_digit (v / 16 % 16) ∷ hex_digit (v % 16) ∷ hex_encode b

hex_value : ℕ → Option ℕ
hex_value c =
    if leb b'0' c && leb c b'9'
    then some (c - 48)
    else if leb b'a' c && leb c b'f'
    then some (c - 87)
    else if leb b'A' c && leb c b'F'
    then some (c - 55)
    else none

hex_pair : Option ℕ → Option ℕ → Option ℕ
hex_pair (some a) (some b) = some (a * 16 + b)
hex_pair _ _ = none

hex_cons : Option ℕ → Option Bytes → Option Bytes
hex_cons (some v) (some b) = some (v ∷ b)
hex_cons _ _ = none

-- `none` is the error for a character that is no digit, or for an odd number of characters.
unfoldable pub hex_decode : Bytes → Option Bytes
unfolding hex_value hex_pair hex_cons
hex_decode [] = some []
hex_decode (a ∷ []) = none
hex_decode (a ∷ b ∷ s) = hex_cons (hex_pair (hex_value a) (hex_value b)) (hex_decode s)

hex_value-hex_digit : (d : ℕ) → d < 16 → hex_value (hex_digit d) ≡ some d
unfolding hex_value hex_digit
hex_value-hex_digit d h = ground arith

pub hex_decode-hex_encode : (b : Bytes) → All IsByte b → hex_decode (hex_encode b) ≡ some b
unfolding hex_decode hex_encode
hex_decode-hex_encode [] h = refl
hex_decode-hex_encode (v ∷ b) h =
    let joined : v / 16 % 16 * 16 + v % 16 ≡ v = omega arith in
    rw (
      hex_value-hex_digit (v / 16 % 16) (omega arith),
      hex_value-hex_digit (v % 16) (omega arith),
      hex_decode-hex_encode b h.1,
      joined,
    )
