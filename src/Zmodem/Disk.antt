-- ===== src/Zmodem/Disk.antt =====
-- The directory that a transfer receives into: names with what is stored there. The calls of Go's os
-- package that can fail take their answers from the state of the receiver.
use native.Mathlib.Nat.{suc-add, zero-add}
use nex_shell.Prelude.{
  append-nil, ℕ, zero, suc, ◌+◌, ◌≡◌, refl, Bool, false, Option, none, some, List, [], ◌∷◌, ◌++◌,
  if◌then◌else◌, Bytes, length, take, drop, bytes_equal, bytes_equal→eq, bytes_equal_refl,
  Bool-cases, inl, inr,
}

pub record Node : Type 0 where
  pub regular : Bool
  pub content : Bytes

abbrev pub Disk : Type 0
Disk = List (Bytes × Node)

unfoldable pub lookup : Bytes → Disk → Option Node
lookup name [] = none
lookup name ((key, node) ∷ disk) = if bytes_equal key name then some node else lookup name disk

unfoldable pub store : Bytes → Node → Disk → Disk
store name node [] = (name, node) ∷ []
store name node ((key, old) ∷ disk) =
    if bytes_equal key name then (key, node) ∷ disk else (key, old) ∷ store name node disk

-- `Write` of a file whose offset is `pos`; the receiver's offset is never behind the end.
abbrev pub write_at : Bytes → ℕ → Bytes → Bytes
write_at content pos b = take pos content ++ (b ++ drop (pos + length b) content)

pub lookup-store_self :
    (name : Bytes) (node : Node) (disk : Disk) → lookup name (store name node disk) ≡ some node
unfolding lookup store
lookup-store_self name node [] = rw (bytes_equal_refl name)
lookup-store_self name node ((key, old) ∷ disk) = elim (Bool-cases (bytes_equal key name)) [
  | inl same ↦ rw same (rw same)
  | inr differs ↦ rw differs (rw (differs, lookup-store_self name node disk))
]

pub lookup-store_ne :
    (name other : Bytes) (node : Node) (disk : Disk)
    → bytes_equal name other ≡ false
    → lookup other (store name node disk) ≡ lookup other disk
unfolding lookup store
lookup-store_ne name other node [] ne = rw ne
lookup-store_ne name other node ((key, old) ∷ disk) ne = elim (Bool-cases (bytes_equal key name)) [
  | inl same ↦
      let e = bytes_equal→eq key name same in
      let ne' : bytes_equal key other ≡ false = rw e ne in rw same (rw ne')
  | inr differs ↦ rw differs (rw (lookup-store_ne name other node disk ne))
]

take_all : (b : Bytes) → take (length b) b ≡ b
take_all [] = refl
take_all (x ∷ b) = rw (take_all b)

drop_nil : (k : ℕ) → drop {A = ℕ} k [] ≡ []
drop_nil zero = refl
drop_nil (suc k) = refl

drop_all : (b : Bytes) (k : ℕ) → drop (length b + k) b ≡ []
drop_all [] k = rw zero-add (drop_nil k)
drop_all (x ∷ b) k = rw (suc-add (length b) k) (drop_all b k)

-- At the end of the content a write appends.
pub write_at-end : (content b : Bytes) → write_at content (length content) b ≡ content ++ b
write_at-end content b = rw (take_all content, drop_all content (length b), append-nil b)

-- Only the last of two stores under one name counts.
pub store-store :
    (name : Bytes) (a b : Node) (disk : Disk) → store name a (store name b disk) ≡ store name a disk
unfolding store
store-store name a b [] = rw (bytes_equal_refl name)
store-store name a b ((key, old) ∷ disk) = elim (Bool-cases (bytes_equal key name)) [
  | inl same ↦ rw same (rw same)
  | inr differs ↦ rw differs (rw (differs, store-store name a b disk))
]
