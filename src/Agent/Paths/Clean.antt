-- ===== src/Agent/Paths/Clean.antt =====
-- A path that is its own `Clean` has proper elements only.
use nex_shell.Prelude.{
  ℕ, ◌≡◌, refl, sym, true, false, List, [], ◌∷◌, arith, ◌==◌, Bytes, codes, All, bytes_equal,
  bytes_equal→eq, Bool-cases, inl, inr,
}
use nex_shell.Agent.Paths.{
  has_byte, put_first, elements, join, is_empty, dropped_last, resolve, reversed, clean_elements,
  clean, validate_path,
}

-- an element that names an entry of a directory
pub record Proper (c : Bytes) : Type 0 where
  pub some_byte : is_empty c ≡ false
  pub no_dot : bytes_equal c (codes ".") ≡ false
  pub no_dots : bytes_equal c (codes "..") ≡ false
  pub no_slash : has_byte b'/' c ≡ false

abbrev Plain : Bytes → Type 0
Plain c = has_byte b'/' c ≡ false

put_first-Plain :
    (x : ℕ) (rest : List Bytes)
    → (x == b'/') ≡ false
    → All Plain rest
    → All Plain (put_first x rest)
unfolding put_first has_byte
put_first-Plain x [] ne h = (rw ne refl, tt)
put_first-Plain x (c ∷ rest) ne h = (rw ne h.0, h.1)

elements-Plain : (s : Bytes) → All Plain (elements s)
unfolding elements has_byte
elements-Plain [] = (refl, tt)
elements-Plain (x ∷ s) = elim (Bool-cases (x == b'/')) [
  | inl e ↦ rw e (refl, elements-Plain s)
  | inr ne ↦ rw ne (put_first-Plain x (elements s) ne (elements-Plain s))
]

dropped_last-All : (stack : List Bytes) → All Proper stack → All Proper (dropped_last stack)
unfolding dropped_last
dropped_last-All [] h = tt
dropped_last-All (c ∷ stack) h = h.1

resolve-Proper :
    (stack rest : List Bytes) → All Proper stack → All Plain rest → All Proper (resolve stack rest)
unfolding resolve
resolve-Proper stack [] h k = h
resolve-Proper stack (c ∷ rest) h k = elim (Bool-cases (is_empty c)) [
  | inl e ↦ rw e (resolve-Proper stack rest h k.1)
  | inr ne ↦ elim (Bool-cases (bytes_equal c (codes "."))) [
    | inl d ↦ rw (ne, d) (resolve-Proper stack rest h k.1)
    | inr nd ↦ elim (Bool-cases (bytes_equal c (codes ".."))) [
      | inl u ↦
          rw (ne, nd, u) (resolve-Proper (dropped_last stack) rest (dropped_last-All stack h) k.1)
      | inr nu ↦
          rw (ne, nd, nu)
            (resolve-Proper (c ∷ stack) rest
              (record { some_byte = ne; no_dot = nd; no_dots = nu; no_slash = k.0 }, h) k.1)
    ]
  ]
]

reversed-All :
    (stack done : List Bytes)
    → All Proper stack
    → All Proper done
    → All Proper (reversed stack done)
unfolding reversed
reversed-All [] done h k = k
reversed-All (c ∷ stack) done h k = reversed-All stack (c ∷ done) h.1 (h.0, k)

pub clean_elements-Proper : (p : Bytes) → All Proper (clean_elements p)
unfolding clean_elements
clean_elements-Proper p =
    reversed-All (resolve [] (elements p)) [] (resolve-Proper [] (elements p) tt (elements-Plain p))
      tt

-- A path that `ValidatePath` accepts is a slash and proper elements, joined by slashes: it has no `.`
-- and no `..` in it, and no two slashes in a row.
pub validate_path-Proper :
    (p : Bytes)
    → validate_path p ≡ true
    → (names : List Bytes) × (All Proper names × (p ≡ b'/' ∷ join names))
unfolding validate_path clean
validate_path-Proper p h =
    let same : bytes_equal (clean p) p ≡ true = ground arith in
    (clean_elements p, (clean_elements-Proper p, sym (bytes_equal→eq (clean p) p same)))
