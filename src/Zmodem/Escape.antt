-- ===== src/Zmodem/Escape.antt =====
-- internal/transfer/zmodem/codec.go: `escape`, and what the reads of `raw` and `escaped` make of it.
use nex_shell.Prelude.{
  ℕ, zero, suc, ◌<◌, bit_and, bit_xor, all_below, all_below_sound, ◌≡◌, refl, inl, inr, Bool, true,
  false, not, ◌&&◌, ◌||◌, [], ◌∷◌, ◌++◌, arith, ◌==◌, leb, if◌then◌else◌, Bytes, length, All, ok,
  pure, ◌>>=◌, Bool-cases, append_assoc,
}
use nex_shell.Zmodem.Crc.{IsByte}
use nex_shell.Zmodem.Wire.{Codec, Wire, zdle, zcrce, zcrcw, is_flow, raw, escaped}

-- what `escape` appends for one byte
pub escape_byte : ℕ → Bytes
escape_byte v =
    if v == 0x7f
    then zdle ∷ b'l' ∷ []
    else if v == 0xff
    then zdle ∷ b'm' ∷ []
    else if bit_and v 0x60 == 0
    then zdle ∷ bit_xor v 0x40 ∷ []
    else v ∷ []

unfoldable pub escape : Bytes → Bytes
unfolding escape_byte
escape [] = []
escape (v ∷ b) = escape_byte v ++ escape b

-- A byte that is sent as it is.
abbrev plain : ℕ → Bool
plain v = not (v == 0x7f) && not (v == 0xff) && not (bit_and v 0x60 == 0)

-- The byte that follows `zdle` for a byte that is not sent as it is.
abbrev code_of : ℕ → ℕ
code_of v = if v == 0x7f then b'l' else if v == 0xff then b'm' else bit_xor v 0x40

-- A code is no flow control, ends no packet, cancels nothing, and stands for its byte.
abbrev code_test : ℕ → Bool
code_test w = not (is_flow w) && not (leb zcrce w && leb w zcrcw) && not (w == zdle)

abbrev decoded : ℕ → ℕ
decoded w = if w == b'l' then 0x7f else if w == b'm' then 0xff else bit_xor w 0x40

abbrev good_byte : ℕ → Bool
good_byte v =
    if plain v
    then not (is_flow v) && not (v == zdle)
    else code_test (code_of v)
      && decoded (code_of v) == v
      && (code_of v == b'l' || code_of v == b'm' || bit_and (code_of v) 0x60 == 0x40)

escape_table : all_below 256 good_byte ≡ true
unfolding all_below
escape_table = refl

good : (v : ℕ) → v < 256 → good_byte v ≡ true
good v h = all_below_sound 256 good_byte v escape_table h

pub raw_byte :
    (c : Codec) (v : ℕ) (rest : Bytes)
    → is_flow v ≡ false
    → raw (record c { input = v ∷ rest }) ≡ (ok v, record c { input = rest })
unfolding raw
raw_byte c v rest h = ground arith

pub raw_flow :
    (c : Codec) (v : ℕ) (rest : Bytes)
    → is_flow v ≡ true
    → raw (record c { input = v ∷ rest }) ≡ raw (record c { input = rest })
unfolding raw
raw_flow c v rest h = ground arith

-- Two forms of an escaped byte, as the readers see them.
pub data Escaped (v : ℕ) : Bytes → Type 0 where
  as_is : is_flow v ≡ false → (v == zdle) ≡ false → Escaped v (v ∷ [])
  coded :
      (w : ℕ)
      → is_flow w ≡ false
      → (leb zcrce w && leb w zcrcw) ≡ false
      → (w == zdle) ≡ false
      → (w == b'l' || w == b'm' || bit_and w 0x60 == 0x40) ≡ true
      → decoded w ≡ v
      → Escaped v (zdle ∷ w ∷ [])

pub escape_byte-Escaped : (v : ℕ) → v < 256 → Escaped v (escape_byte v)
unfolding escape_byte
escape_byte-Escaped v h =
    let g = good v h in
    elim (Bool-cases (v == 0x7f)) [
      | inl p ↦ rw p (coded b'l' refl refl refl refl (ground arith))
      | inr p ↦ elim (Bool-cases (v == 0xff)) [
        | inl q ↦ rw (p, q) (coded b'm' refl refl refl refl (ground arith))
        | inr q ↦ elim (Bool-cases (bit_and v 0x60 == 0)) [
          | inl r ↦
              rw (p, q, r)
                (coded (bit_xor v 0x40) (ground arith) (ground arith) (ground arith) (ground arith)
                  (ground arith))
          | inr r ↦ rw (p, q, r) (as_is (ground arith) (ground arith))
        ]
      ]
    ]

-- One escaped byte is read back, with nothing of what follows.
pub escaped-Escaped :
    (c : Codec) {v : ℕ} {e : Bytes} (rest : Bytes)
    → Escaped v e
    → escaped (record c { input = e ++ rest }) ≡ (ok v, record c { input = rest })
unfolding escaped
escaped-Escaped c {v} rest (as_is f z) = rw (raw_byte c v rest f) (ground arith)
escaped-Escaped c rest (coded w f k z t d) = rw (raw_byte c w rest f) (ground arith)

-- `n` escaped bytes in a row, as the loops that fill a slice read them
unfoldable pub read_escaped : ℕ → Wire Bytes
read_escaped zero = pure []
read_escaped (suc n) = do v ← escaped; b ← read_escaped n; pure (v ∷ b)

pub read_escaped-escape :
    (c : Codec) (b rest : Bytes)
    → All IsByte b
    → read_escaped (length b) (record c { input = escape b ++ rest })
      ≡ (ok b, record c { input = rest })
unfolding read_escaped escape
read_escaped-escape c [] rest h = refl
read_escaped-escape c (v ∷ b) rest h = rw append_assoc (
    rw (escaped-Escaped c (escape b ++ rest) (escape_byte-Escaped v h.0))
      (rw (read_escaped-escape c b rest h.1) refl))
