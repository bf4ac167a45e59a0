-- ===== src/Prelude/Decimal.antt =====
-- Decimal text: `strconv.FormatInt` and `strconv.ParseInt` in base 10, on byte strings.
use Prim.Native.Nat.{ℕ, zero, suc, ◌+◌, ◌-◌, ◌*◌, ◌/◌, ◌%◌, ◌^◌, ◌≤◌, ◌<◌}
use mathlib.Core.Path.{◌≡◌, refl}
use mathlib.Core.Bool.{Bool, true, false, ◌&&◌}
use mathlib.Core.Option.{Option, none, some}
use mathlib.Core.List.{[], ◌∷◌, ◌++◌, concat-ne-nil}
use mathlib.Core.Logic.{◌≢◌, inl, inr}
use native.Mathlib.Omega.{arith}
use nex_shell.Prelude.Lists.{Bytes, All, All-append}
use nex_shell.Prelude.Tests.{ltb, leb, ◌==◌, if◌then◌else◌, Bool-cases}

-- The digits of `n`, the highest first. The fuel is the number itself: a tenth is smaller.
format_from : ℕ → ℕ → Bytes
format_from zero n = (n % 10 + 48) ∷ []
format_from (suc fuel) n =
    let rest = format_from fuel (n / 10) in
    if ltb n 10 then (n + 48) ∷ [] else rest ++ (n % 10 + 48) ∷ []

unfoldable pub format_int : ℕ → Bytes
unfolding format_from
format_int n = format_from n n

-- The value of a text of digits, on top of what was read before it.
parse_from : ℕ → Bytes → Option ℕ
parse_from n [] = some n
parse_from n (c ∷ s) =
    let rest = parse_from (n * 10 + (c - 48)) s in if leb 48 c && leb c 57 then rest else none

-- at least one digit
unfoldable pub parse_digits : Bytes → Option ℕ
unfolding parse_from
parse_digits [] = none
parse_digits (c ∷ s) = parse_from 0 (c ∷ s)

abbrev in_int64 : Bool → Option ℕ → Option (Bool × ℕ)
in_int64 negative none = none
in_int64 true (some n) = if leb n (2 ^ 63) then some (true, n) else none
in_int64 false (some n) = if ltb n (2 ^ 63) then some (false, n) else none

-- The sign, set for a minus, and the magnitude; `none` for a syntax error or an overflow of 64 bits.
unfoldable pub parse_int : Bytes → Option (Bool × ℕ)
unfolding parse_digits
parse_int [] = none
parse_int (c ∷ s) =
    if c == b'-'
    then in_int64 true (parse_digits s)
    else if c == b'+'
    then in_int64 false (parse_digits s)
    else in_int64 false (parse_digits (c ∷ s))

parse_from-append :
    (s : Bytes) (n d m : ℕ)
    → d < 10
    → parse_from n s ≡ some m
    → parse_from n (s ++ (d + 48) ∷ []) ≡ some (m * 10 + d)
unfolding parse_from
parse_from-append [] n d m h e = ground arith
parse_from-append (c ∷ s) n d m h e = ground (arith, parse_from-append s (n * 10 + (c - 48)) d m)

parse_from-format_from : (fuel n : ℕ) → n ≤ fuel → parse_from 0 (format_from fuel n) ≡ some n
unfolding parse_from format_from
parse_from-format_from zero n h = ground arith
parse_from-format_from (suc fuel) n h = ground (
  arith,
  parse_from-format_from fuel (n / 10),
  parse_from-append (format_from fuel (n / 10)) 0 (n % 10) (n / 10),
)

abbrev pub IsDigit : ℕ → Type 0
IsDigit c = (48 ≤ c) × (c ≤ 57)

format_from-IsDigit : (fuel n : ℕ) → All IsDigit (format_from fuel n)
unfolding format_from
format_from-IsDigit zero n = omega arith
format_from-IsDigit (suc fuel) n = elim (Bool-cases (ltb n 10)) [
  | inl small ↦ rw small (ground arith)
  | inr large ↦ rw large (
      All-append IsDigit (format_from fuel (n / 10)) ((n % 10 + 48) ∷ [])
        (format_from-IsDigit fuel (n / 10)) (omega arith))
]

pub format_int-IsDigit : (n : ℕ) → All IsDigit (format_int n)
unfolding format_int
format_int-IsDigit n = format_from-IsDigit n n

format_from-ne-nil : (fuel n : ℕ) → format_from fuel n ≢ []
unfolding format_from
format_from-ne-nil zero n = cc
format_from-ne-nil (suc fuel) n =
    ground (arith, concat-ne-nil (n % 10 + 48) (format_from fuel (n / 10)))

pub format_int-ne-nil : (n : ℕ) → format_int n ≢ []
unfolding format_int
format_int-ne-nil n = format_from-ne-nil n n

parse_int-parse_digits :
    (s : Bytes) (n : ℕ)
    → All IsDigit s
    → parse_from 0 s ≡ some n
    → s ≢ []
    → n < 2 ^ 63
    → parse_int s ≡ some (false, n)
unfolding parse_int
parse_int-parse_digits [] n d e ne h = absurd (ne refl)
parse_int-parse_digits (c ∷ s) n d e ne h =
    let minus : (c == b'-') ≡ false = ground arith in
    let plus : (c == b'+') ≡ false = ground arith in
    let fits : ltb n (2 ^ 63) ≡ true = ground arith in rw (minus, plus, e, fits)

-- `ParseInt` reads back what `FormatInt` writes for a number below 2^63.
pub parse_int-format_int : (n : ℕ) → n < 2 ^ 63 → parse_int (format_int n) ≡ some (false, n)
unfolding format_int
parse_int-format_int n h =
    parse_int-parse_digits (format_from n n) n (format_from-IsDigit n n)
      (parse_from-format_from n n (omega arith)) (format_from-ne-nil n n) h
