-- ===== src/Zmodem/Files.antt =====
-- internal/transfer/zmodem/transfer.go: file names and the metadata of a file header, with what they
-- use of path/filepath (on Unix), strings and strconv.
pub mod Metadata
use nex_shell.Prelude.{
  ℕ, zero, suc, ◌+◌, ◌≤◌, ◌^◌, ◌-◌, Bool, true, false, not, ◌&&◌, ◌||◌, Option, none, some, [], ◌∷◌,
  ◌++◌, ◌==◌, ltb, leb, if◌then◌else◌, Bytes, length, drop, codes, bytes_equal, Result, ok, err,
  format_int, parse_int,
}
use nex_shell.Zmodem.Wire.{Error, unsafe_name, missing_size, invalid_size}

contains : ℕ → Bytes → Bool
contains c [] = false
contains c (x ∷ s) = x == c || contains c s

is_nil : Bytes → Bool
is_nil [] = true
is_nil (_ ∷ _) = false

-- `strings.TrimRight(s, c)`, for one byte
trim_right : ℕ → Bytes → Bytes
trim_right c [] = []
trim_right c (x ∷ s) = let r = trim_right c s in if x == c && is_nil r then [] else x ∷ r

-- what follows the last slash
after_slash : Bytes → Bytes
after_slash [] = []
after_slash (x ∷ s) =
    let r = after_slash s in if contains b'/' s then r else if x == b'/' then s else x ∷ s

base_of : Bytes → Bytes
base_of [] = b'/' ∷ []
base_of (x ∷ s) = after_slash (x ∷ s)

-- `filepath.Base`
unfoldable pub base : Bytes → Bytes
unfolding base_of trim_right after_slash contains is_nil
base p = if is_nil p then b'.' ∷ [] else base_of (trim_right b'/' p)

unfoldable pub safe_name : Bytes → Bool
unfolding contains is_nil base
safe_name name =
    not (is_nil name)
    && not (bytes_equal name (codes "."))
    && not (bytes_equal name (codes ".."))
    && not (contains b'/' name || contains 0x5c name || contains 0 name)
    && bytes_equal (base name) name

abbrev pub max_u32 : ℕ
max_u32 = 2 ^ 32 - 1

-- what the sender says of a file: its base name and size
unfoldable pub metadata : Bytes → ℕ → Bytes
metadata name size =
    name ++ (0 ∷ (format_int size ++ (codes " 0 100600 0 1 " ++ (format_int size ++ 0 ∷ []))))

-- `strings.SplitN(s, "\x00", 2)`: the part before the first zero byte, and the part behind it
split_zero : Bytes → Bytes × Option Bytes
split_zero [] = ([], none)
split_zero (x ∷ s) =
    let (name, rest) = split_zero s in if x == 0 then ([], some s) else (x ∷ name, rest)

-- The length of a white space character at the start, in UTF-8; 0 if there is none.
space_length : Bytes → ℕ
space_length [] = 0
space_length (a ∷ []) = if a == 0x20 || (leb 0x09 a && leb a 0x0d) then 1 else 0
space_length (a ∷ b ∷ []) =
    if a == 0x20 || (leb 0x09 a && leb a 0x0d)
    then 1
    else if a == 0xc2 && (b == 0x85 || b == 0xa0)
    then 2
    else 0
space_length (a ∷ b ∷ c ∷ _) =
    if a == 0x20 || (leb 0x09 a && leb a 0x0d)
    then 1
    else if a == 0xc2 && (b == 0x85 || b == 0xa0)
    then 2
    else if (a == 0xe1 && b == 0x9a && c == 0x80)
        || (a == 0xe2
            && b == 0x80
            && ((leb 0x80 c && leb c 0x8a) || c == 0xa8 || c == 0xa9 || c == 0xaf))
        || (a == 0xe2 && b == 0x81 && c == 0x9f)
        || (a == 0xe3 && b == 0x80 && c == 0x80)
    then 3
    else 0

-- The first of `strings.Fields`, empty if there is none: white space is passed over (`skip` bytes of
-- a character that was recognised are left), then the bytes up to the next white space.
field_until : Bytes → Bytes
field_until [] = []
field_until (x ∷ s) = let r = field_until s in if space_length (x ∷ s) == 0 then x ∷ r else []

first_field : ℕ → Bytes → Bytes
first_field skip [] = []
first_field (suc skip) (x ∷ s) = first_field skip s
first_field zero (x ∷ s) =
    let width = space_length (x ∷ s) in
    let rest = first_field (width - 1) s in if width == 0 then x ∷ field_until s else rest

size_of : Option (Bool × ℕ) → Result Error ℕ
size_of none = err invalid_size
size_of (some (negative, n)) =
    if (negative && not (n == 0)) || ltb max_u32 n then err invalid_size else ok n

parse_size : Bytes → Result Error ℕ
parse_size [] = err missing_size
parse_size (c ∷ field) = size_of (parse_int (c ∷ field))

named : Bytes → Result Error ℕ → Result Error (Bytes × ℕ)
named name (ok n) = ok (name, n)
named name (err e) = err e

parse_parts : Bytes → Option Bytes → Result Error (Bytes × ℕ)
parse_parts name none = err unsafe_name
parse_parts name (some rest) =
    if not (safe_name name)
    then err unsafe_name
    else named name (parse_size (first_field 0 (trim_right 0 rest)))

-- the name and the size that the receiver takes from the metadata
pub parse_metadata : Bytes → Result Error (Bytes × ℕ)
parse_metadata meta = let (name, rest) = split_zero meta in parse_parts name rest
