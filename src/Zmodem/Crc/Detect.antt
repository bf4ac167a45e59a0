-- ===== src/Zmodem/Crc/Detect.antt =====
-- `CRC16` tells apart any two messages that differ in one byte.
use nex_shell.Prelude.{
  ℕ, zero, suc, ◌+◌, ◌*◌, ◌/◌, ◌%◌, ◌^◌, ◌<◌, bit_xor, bit_xor-lt, bit_xor-bit_xor, bit_xor_comm,
  all_below, all_below_sound, ◌≡◌, ◌≢◌, refl, sym, ap, ◌∙◌, [], ◌∷◌, ◌++◌, arith, Bool, true, ◌==◌,
  ==_iff, if◌then◌else◌, Bytes,
}
use nex_shell.Zmodem.Crc.{
  IsByte, crc16_round, crc16_rounds, crc16_from, crc16, crc16_rounds-lt, crc16_from-lt,
}

-- The inverse of a round: the lowest bit of its result says which branch was taken.
unround : ℕ → ℕ
unround x = if x % 2 == 0 then x / 2 else bit_xor x 0x1021 / 2 + 0x8000

round_row : ℕ → ℕ → Bool
round_row hi lo = unround (crc16_round (hi * 256 + lo)) == hi * 256 + lo

round_table : all_below 256 (λ hi. all_below 256 (round_row hi)) ≡ true
unfolding all_below round_row unround crc16_round
round_table = refl

unround_lem : (crc : ℕ) → crc < 2 ^ 16 → unround (crc16_round crc) ≡ crc
unfolding round_row
unround_lem crc h =
    let hi = crc / 256 in
    let lo = crc % 256 in
    let row =
      all_below_sound 256 (λ hi. all_below 256 (round_row hi)) hi round_table (omega arith) in
    let cell = all_below_sound 256 (round_row hi) lo row (omega arith) in
    let e : hi * 256 + lo ≡ crc = omega arith in
    rw e at ((==_iff (unround (crc16_round (hi * 256 + lo))) (hi * 256 + lo)).0 cell)

crc16_rounds_inj :
    (i a b : ℕ) → a < 2 ^ 16 → b < 2 ^ 16 → crc16_rounds i a ≡ crc16_rounds i b → a ≡ b
unfolding crc16_rounds
crc16_rounds_inj zero a b ha hb e = e
crc16_rounds_inj (suc i) a b ha hb e =
    let below = λ (x : ℕ). crc16_rounds-lt 1 x in
    sym (unround_lem a ha)
    ∙ ap unround (crc16_rounds_inj i (crc16_round a) (crc16_round b) (below a ha) (below b hb) e)
    ∙ unround_lem b hb

crc16_from_inj :
    (m : Bytes) (a b : ℕ) → a < 2 ^ 16 → b < 2 ^ 16 → crc16_from a m ≡ crc16_from b m → a ≡ b
unfolding crc16_from
crc16_from_inj [] a b ha hb e = e
crc16_from_inj (v ∷ m) a b ha hb e =
    let s = v * 256 % 2 ^ 16 in
    let below = λ (x : ℕ) (h : x < 2 ^ 16). bit_xor-lt 16 x s h (omega arith) in
    let rounds =
      crc16_from_inj m (crc16_rounds 8 (bit_xor a s)) (crc16_rounds 8 (bit_xor b s))
        (crc16_rounds-lt 8 (bit_xor a s) (below a ha))
        (crc16_rounds-lt 8 (bit_xor b s) (below b hb)) e in
    let mixed = crc16_rounds_inj 8 (bit_xor a s) (bit_xor b s) (below a ha) (below b hb) rounds in
    sym (bit_xor-bit_xor 16 a s ha (omega arith))
    ∙ ap (λ x. bit_xor x s) mixed
    ∙ bit_xor-bit_xor 16 b s hb (omega arith)

crc16_from-append :
    (m n : Bytes) (crc : ℕ) → crc16_from crc (m ++ n) ≡ crc16_from (crc16_from crc m) n
unfolding crc16_from
crc16_from-append [] n crc = refl
crc16_from-append (v ∷ m) n crc =
    crc16_from-append m n (crc16_rounds 8 (bit_xor crc (v * 256 % 2 ^ 16)))

crc16_from-byte :
    (crc v w : ℕ) (m : Bytes)
    → crc < 2 ^ 16
    → IsByte v
    → IsByte w
    → crc16_from crc (v ∷ m) ≡ crc16_from crc (w ∷ m)
    → v ≡ w
unfolding crc16_from
crc16_from-byte crc v w m h hv hw e =
    let s = λ (x : ℕ). x * 256 % 2 ^ 16 in
    let below = λ (x : ℕ). bit_xor-lt 16 crc (s x) h (omega arith) in
    let rounds =
      crc16_from_inj m (crc16_rounds 8 (bit_xor crc (s v))) (crc16_rounds 8 (bit_xor crc (s w)))
        (crc16_rounds-lt 8 (bit_xor crc (s v)) (below v))
        (crc16_rounds-lt 8 (bit_xor crc (s w)) (below w)) e in
    let mixed =
      crc16_rounds_inj 8 (bit_xor crc (s v)) (bit_xor crc (s w)) (below v) (below w) rounds in
    let same : s v ≡ s w =
      sym (bit_xor-bit_xor 16 (s v) crc (omega arith) h)
      ∙ ap (λ x. bit_xor x crc) (bit_xor_comm (s v) crc ∙ mixed ∙ bit_xor_comm crc (s w))
      ∙ bit_xor-bit_xor 16 (s w) crc (omega arith) h in
    omega arith

pub crc16_single_byte :
    (before : Bytes) (v w : ℕ) (after : Bytes)
    → IsByte v
    → IsByte w
    → crc16 (before ++ (v ∷ after)) ≡ crc16 (before ++ (w ∷ after))
    → v ≡ w
unfolding crc16
crc16_single_byte before v w after hv hw e =
    let from = crc16_from 0 before in
    crc16_from-byte from v w after (crc16_from-lt 0 before (omega arith)) hv hw
      (sym (crc16_from-append before (v ∷ after) 0) ∙ e ∙ crc16_from-append before (w ∷ after) 0)

-- Two messages that differ in one byte, at any place, have different checksums.
pub crc16_detects :
    (before : Bytes) (v w : ℕ) (after : Bytes)
    → IsByte v
    → IsByte w
    → v ≢ w
    → crc16 (before ++ (v ∷ after)) ≢ crc16 (before ++ (w ∷ after))
crc16_detects before v w after hv hw differs same =
    differs (crc16_single_byte before v w after hv hw same)
