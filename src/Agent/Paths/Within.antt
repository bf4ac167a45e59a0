-- ===== src/Agent/Paths/Within.antt =====
-- Of absolute paths, `Within` holds for a directory and what lies below it.
use mathlib.Core.Bool.{false≢true}
use mathlib.Core.Path.{subst}
use nex_shell.Prelude.{
  ℕ, ◌≡◌, ◌⊎◌, ◌↔◌, inl, inr, refl, sym, ◌∙◌, ap, Bool, true, false, not, ◌&&◌, ◌||◌, List, [], ◌∷◌,
  ◌++◌, arith, ◌==◌, Bytes, codes, All, bytes_equal, bytes_equal→eq, bytes_equal_refl, Bool-cases,
}
use nex_shell.Agent.Paths.{
  has_byte, is_abs, is_empty, join, clean_elements, rel_elements, ups, dot, rel, leaves, within,
}
use nex_shell.Agent.Paths.Clean.{Proper, clean_elements-Proper}

-- The entry `target` is `base` or below it.
abbrev pub Below : List Bytes → List Bytes → Type 0
Below base target = (rest : List Bytes) × (target ≡ base ++ rest)

-- a relative path that begins with `..`
abbrev Up : List Bytes → Type 0
Up names = (rest : List Bytes) × (names ≡ codes ".." ∷ rest)

rel-cases :
    (base target : List Bytes)
    → ((rest : List Bytes) × ((target ≡ base ++ rest) × (rel_elements base target ≡ rest)))
      ⊎ Up (rel_elements base target)
unfolding rel_elements ups
rel-cases [] target = inl (target, (refl, refl))
rel-cases (b ∷ base) [] = inr (ups base [], refl)
rel-cases (b ∷ base) (t ∷ target) = elim (Bool-cases (bytes_equal b t)) [
  | inl same ↦ elim (rel-cases base target) [
    | inl (rest, (e, r)) ↦ rw same (inl (rest, (rw (bytes_equal→eq b t same) (ap (◌∷◌ t) e), r)))
    | inr up ↦ rw same (inr up)
  ]
  | inr differs ↦ rw differs (inr (ups base (t ∷ target), refl))
]

below_rel : (base rest : List Bytes) → rel_elements base (base ++ rest) ≡ rest
unfolding rel_elements
below_rel [] rest = refl
below_rel (b ∷ base) rest = rw (bytes_equal_refl b) (below_rel base rest)

-- A path upwards is turned down by the two tests.
refused : Bytes → Bool
refused r = bytes_equal r (codes "..") || leaves r

up-refused : (rest : List Bytes) → refused (dot (codes ".." ∷ rest)) ≡ true
unfolding refused join leaves bytes_equal
up-refused [] = refl
up-refused (c ∷ rest) = refl

leaves-not : (a b : ℕ) (s : Bytes) → (a == b'.' && b == b'.') ≡ false → leaves (a ∷ b ∷ s) ≡ false
unfolding leaves
leaves-not a b [] h = refl
leaves-not a b (c ∷ s) h = ground arith

alone : (c : Bytes) → Proper c → refused c ≡ false
unfolding refused leaves bytes_equal has_byte
alone [] p = refl
alone (a ∷ []) p = let n = p.no_dots in ground arith
alone (a ∷ b ∷ []) p = let n = p.no_dots in ground arith
alone (a ∷ b ∷ d ∷ s) p = let n = p.no_slash in ground arith

followed : (c : Bytes) (s : Bytes) → Proper c → refused (c ++ (b'/' ∷ s)) ≡ false
unfolding refused leaves bytes_equal has_byte is_empty
followed [] s p = let n = p.some_byte in cc
followed (a ∷ []) s p =
    let l : leaves (a ∷ b'/' ∷ s) ≡ false = leaves-not a b'/' s (ground arith) in
    rw l (ground arith)
followed (a ∷ b ∷ []) s p = let n = p.no_dots in ground arith
followed (a ∷ b ∷ d ∷ t) s p = let n = p.no_slash in ground arith

down-accepted : (names : List Bytes) → All Proper names → refused (dot names) ≡ false
unfolding join
down-accepted [] h = unfold refused leaves bytes_equal in refl
down-accepted (c ∷ []) h = alone c h.0
down-accepted (c ∷ d ∷ rest) h = followed c (join (d ∷ rest)) h.0

All-right : (xs ys : List Bytes) → All Proper (xs ++ ys) → All Proper ys
All-right [] ys h = h
All-right (x ∷ xs) ys h = All-right xs ys h.1

not-refused : (r : Bytes) → (not (bytes_equal r (codes "..")) && not (leaves r)) ≡ not (refused r)
unfolding refused
not-refused r = ground arith

within-refused :
    (root p : Bytes)
    → is_abs root ≡ true
    → is_abs p ≡ true
    → within root p ≡ not (refused (dot (rel_elements (clean_elements root) (clean_elements p))))
unfolding within rel
within-refused root p ra pa = rw (ra, pa) (not-refused (rel root p))

within-Below :
    (root p : Bytes)
    → is_abs root ≡ true
    → is_abs p ≡ true
    → within root p ≡ true
    → Below (clean_elements root) (clean_elements p)
within-Below root p ra pa h = elim (rel-cases (clean_elements root) (clean_elements p)) [
  | inl (rest, (e, r)) ↦ (rest, e)
  | inr (rest, e) ↦
      let no : within root p ≡ false =
        within-refused root p ra pa ∙ rw e (ap not (up-refused rest)) in
      absurd (false≢true (sym no ∙ h))
]

Below-within :
    (root p : Bytes)
    → is_abs root ≡ true
    → is_abs p ≡ true
    → Below (clean_elements root) (clean_elements p)
    → within root p ≡ true
Below-within root p ra pa (rest, e) =
    let proper : All Proper (clean_elements root ++ rest) =
      subst (All Proper) e (clean_elements-Proper p) in
    within-refused root p ra pa
    ∙ rw e (
        rw (below_rel (clean_elements root) rest)
          (ap not (down-accepted rest (All-right (clean_elements root) rest proper))))

-- For absolute paths, `Within` holds if and only if the path is the root or lies below it, entry by
-- entry, once both are cleaned.
pub within_iff :
    (root p : Bytes)
    → is_abs root ≡ true
    → is_abs p ≡ true
    → (within root p ≡ true) ↔ Below (clean_elements root) (clean_elements p)
within_iff root p ra pa = (within-Below root p ra pa, Below-within root p ra pa)

-- An absolute path is within an absolute directory only.
within-is_abs : (root p : Bytes) → is_abs p ≡ true → within root p ≡ true → is_abs root ≡ true
unfolding within
within-is_abs root p pa h = elim (Bool-cases (is_abs root)) [
  | inl ra ↦ ra
  | inr rn ↦ let x = rw (rn, pa) at h in cc
]

pub within-entries :
    (root p : Bytes)
    → is_abs p ≡ true
    → within root p ≡ true
    → Below (clean_elements root) (clean_elements p)
within-entries root p pa h = within-Below root p (within-is_abs root p pa h) pa h
