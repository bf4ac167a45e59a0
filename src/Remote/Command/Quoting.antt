-- ===== src/Remote/Command/Quoting.antt =====
-- A shell takes a quoted text as one word, whatever stands in it.
use nex_shell.Prelude.{
  ℕ, ◌≡◌, refl, Bool, ◌||◌, Option, none, some, [], ◌∷◌, ◌++◌, ◌==◌, ==_iff, if◌then◌else◌,
  Bool-cases, inl, inr, Bytes,
}
use nex_shell.Remote.Command.{quoted, quote}

-- where in a word a POSIX shell stands
pub data Mode : Type 0 where
  bare single double : Mode

-- the characters that a bare word does not stand for by themselves
unfoldable pub is_special : ℕ → Bool
is_special c =
    c == b';'
    || c == b'&'
    || c == b'|'
    || c == b'<'
    || c == b'>'
    || c == b'('
    || c == b')'
    || c == b'$'
    || c == b'`'
    || c == b'\\'
    || c == b'*'
    || c == b'?'
    || c == b'['
    || c == b'#'
    || c == b'~'
    || c == 10
    || c == 9

unfoldable pub is_expanded : ℕ → Bool
is_expanded c = c == b'$' || c == b'`' || c == b'\\'

unfoldable pub with_first : ℕ → Option (Bytes × Bytes) → Option (Bytes × Bytes)
with_first c none = none
with_first c (some (word, rest)) = some (c ∷ word, rest)

-- The word at the front of a command and what stands behind the blank that ends it; `none` where the shell
-- would expand something, end the command or wait for more.
unfoldable pub read_word : Mode → Bytes → Option (Bytes × Bytes)
read_word bare [] = some ([], [])
read_word bare (c ∷ s) =
    let quoted_part = read_word single s in
    let double_part = read_word double s in
    let more = with_first c (read_word bare s) in
    if c == b' '
    then some ([], s)
    else if c == b'\''
    then quoted_part
    else if c == b'"'
    then double_part
    else if is_special c
    then none
    else more
read_word single [] = none
read_word single (c ∷ s) =
    let ends = read_word bare s in
    let more = with_first c (read_word single s) in if c == b'\'' then ends else more
read_word double [] = none
read_word double (c ∷ s) =
    let ends = read_word bare s in
    let more = with_first c (read_word double s) in
    if c == b'"' then ends else if is_expanded c then none else more

read_word-quoted : (s rest : Bytes) → read_word single (quoted s ++ (b' ' ∷ rest)) ≡ some (s, rest)
unfolding quoted read_word with_first is_expanded
read_word-quoted [] rest = refl
read_word-quoted (c ∷ s) rest =
    let ih = read_word-quoted s rest in
    elim (Bool-cases (c == b'\'')) [
      | inl q ↦ let same : c ≡ b'\'' = (==_iff c b'\'').0 q in rw q (rw (ih, same) refl)
      | inr n ↦ rw n (rw n (rw ih refl))
    ]

-- A shell reads a quoted text as one word, the text itself, and goes on behind it.
pub read_word-quote : (s rest : Bytes) → read_word bare (quote s ++ (b' ' ∷ rest)) ≡ some (s, rest)
unfolding quote read_word
read_word-quote s rest = read_word-quoted s rest
