-- ===== src/Zmodem/Send/Pieces.antt =====
-- The pieces of a file's content that `sendFile` reads into its buffer one by one.
use nex_shell.Prelude.{
  take-append-drop, ℕ, zero, suc, ◌≤◌, ◌≡◌, refl, List, [], ◌∷◌, arith, Bytes, length, take, drop,
  All,
}
use nex_shell.Zmodem.Crc.{IsByte}
use nex_shell.Zmodem.Send.{buffer_size}
use nex_shell.Zmodem.Transfer.{joined, Chunk}

unfoldable pub pieces : ℕ → Bytes → List Bytes
pieces zero b = []
pieces (suc n) [] = []
pieces (suc n) (x ∷ b) = take buffer_size (x ∷ b) ∷ pieces n (drop buffer_size (x ∷ b))

length-take-le : (n : ℕ) (b : Bytes) → length (take n b) ≤ n
length-take-le zero b = omega arith
length-take-le (suc n) [] = omega arith
length-take-le (suc n) (x ∷ b) = omega (arith, length-take-le n b)

All-take : (n : ℕ) (b : Bytes) → All IsByte b → All IsByte (take n b)
All-take zero b h = tt
All-take (suc n) [] h = tt
All-take (suc n) (x ∷ b) h = (h.0, All-take n b h.1)

All-drop : (n : ℕ) (b : Bytes) → All IsByte b → All IsByte (drop n b)
All-drop zero b h = h
All-drop (suc n) [] h = h
All-drop (suc n) (x ∷ b) h = All-drop n b h.1

pub length-drop-lt : (n : ℕ) (x : ℕ) (b : Bytes) → length (drop (suc n) (x ∷ b)) ≤ length b
length-drop-lt zero x b = omega arith
length-drop-lt (suc n) x [] = omega arith
length-drop-lt (suc n) x (y ∷ b) = omega (arith, length-drop-lt n y b)

-- Together the pieces are the content.
pub joined-pieces : (n : ℕ) (b : Bytes) → length b ≤ n → joined (pieces n b) ≡ b
unfolding pieces joined
joined-pieces zero [] h = refl
joined-pieces zero (x ∷ b) h = absurd (omega arith)
joined-pieces (suc n) [] h = refl
joined-pieces (suc n) (x ∷ b) h =
    rw (joined-pieces n (drop buffer_size (x ∷ b)) (omega (arith, length-drop-lt 8191 x b)))
      (take-append-drop buffer_size (x ∷ b))

pub pieces-Chunk : (n : ℕ) (b : Bytes) → All IsByte b → All Chunk (pieces n b)
unfolding pieces
pieces-Chunk zero b h = tt
pieces-Chunk (suc n) [] h = tt
pieces-Chunk (suc n) (x ∷ b) h = (
  (All-take buffer_size (x ∷ b) h, omega (arith, length-take-le buffer_size (x ∷ b))),
  pieces-Chunk n (drop buffer_size (x ∷ b)) (All-drop buffer_size (x ∷ b) h),
)
