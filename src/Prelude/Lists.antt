-- ===== src/Prelude/Lists.antt =====
-- Lists over the native numbers, byte strings, and predicates on all members.
use Prim.Native.Nat.{ℕ, zero, suc, ◌+◌, ◌≤◌}
use Prim.Native.Char.{code}
use Prim.Native.String.{String}
use mathlib.Core.Path.{◌≡◌, refl, ap}
use mathlib.Core.Bool.{Bool, true, false, ◌&&◌}
use mathlib.Core.List.{List, [], ◌∷◌, ◌++◌}
use native.Mathlib.Omega.{arith}
use nex_shell.Prelude.Tests.{◌==◌}

-- A byte slice is a list of numbers.
abbrev pub Bytes : Type 0
Bytes = List ℕ

-- The code points of a text: its bytes, if it is ASCII.
abbrev pub codes : String → Bytes
codes String.[] = []
codes (String.◌∷◌ c s) = code c ∷ codes s

module _ {ℓ} {A : Type ℓ} where
  abbrev pub length : List A → ℕ
  length [] = 0
  length (x ∷ xs) = suc (length xs)

  pub length-append : (xs ys : List A) → length (xs ++ ys) ≡ length xs + length ys
  length-append [] ys = omega arith
  length-append (x ∷ xs) ys = omega (arith, length-append xs ys)

  abbrev pub get_or : List A → ℕ → A → A
  get_or [] i d = d
  get_or (x ∷ xs) zero d = x
  get_or (x ∷ xs) (suc i) d = get_or xs i d

  abbrev pub take : ℕ → List A → List A
  take zero xs = []
  take (suc n) [] = []
  take (suc n) (x ∷ xs) = x ∷ take n xs

  abbrev pub drop : ℕ → List A → List A
  drop zero xs = xs
  drop (suc n) [] = []
  drop (suc n) (x ∷ xs) = drop n xs

  pub take-append : (b rest : List A) → take (length b) (b ++ rest) ≡ b
  take-append [] rest = refl
  take-append (x ∷ b) rest = ap (◌∷◌ x) (take-append b rest)

  pub drop-append : (b rest : List A) → drop (length b) (b ++ rest) ≡ rest
  drop-append [] rest = refl
  drop-append (x ∷ b) rest = drop-append b rest

  pub take-append-drop : (n : ℕ) (b : List A) → take n b ++ drop n b ≡ b
  take-append-drop zero b = refl
  take-append-drop (suc n) [] = refl
  take-append-drop (suc n) (x ∷ b) = ap (◌∷◌ x) (take-append-drop n b)

  pub length-drop-le : (n : ℕ) (b : List A) → length (drop n b) ≤ length b
  length-drop-le zero b = omega arith
  length-drop-le (suc n) [] = omega arith
  length-drop-le (suc n) (x ∷ b) = omega (arith, length-drop-le n b)

  abbrev pub All {κ} : (A → Type κ) → List A → Type κ
  All P [] = Unit {κ}
  All P (x ∷ xs) = P x × All P xs

  pub All-append {κ} : (P : A → Type κ) (b rest : List A) → All P b → All P rest → All P (b ++ rest)
  All-append P [] rest h k = k
  All-append P (x ∷ b) rest h k = (h.0, All-append P b rest h.1 k)

  pub All-append_right {κ} : (P : A → Type κ) (xs ys : List A) → All P (xs ++ ys) → All P ys
  All-append_right P [] ys h = h
  All-append_right P (x ∷ xs) ys h = All-append_right P xs ys h.1

-- `bytes.Equal`
unfoldable pub bytes_equal : Bytes → Bytes → Bool
bytes_equal [] [] = true
bytes_equal [] (y ∷ b) = false
bytes_equal (x ∷ a) [] = false
bytes_equal (x ∷ a) (y ∷ b) = bytes_equal a b && x == y

pub bytes_equal→eq : (a b : Bytes) → bytes_equal a b ≡ true → a ≡ b
unfolding bytes_equal
bytes_equal→eq [] [] h = refl
bytes_equal→eq [] (y ∷ b) h = cc
bytes_equal→eq (x ∷ a) [] h = cc
bytes_equal→eq (x ∷ a) (y ∷ b) h = ground (arith, bytes_equal→eq a b)

pub bytes_equal_refl : (a : Bytes) → bytes_equal a a ≡ true
unfolding bytes_equal
bytes_equal_refl [] = refl
bytes_equal_refl (x ∷ a) = ground (arith, bytes_equal_refl a)

pub bytes_equal_comm : (a b : Bytes) → bytes_equal a b ≡ bytes_equal b a
unfolding bytes_equal
bytes_equal_comm [] [] = refl
bytes_equal_comm [] (y ∷ b) = refl
bytes_equal_comm (x ∷ a) [] = refl
bytes_equal_comm (x ∷ a) (y ∷ b) = rw (bytes_equal_comm a b) (ground arith)
