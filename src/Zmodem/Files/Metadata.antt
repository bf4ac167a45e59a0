-- ===== src/Zmodem/Files/Metadata.antt =====
-- What the receiver takes from the metadata: a safe name and a size that fits 32 bits, and for the
-- metadata that the sender writes, the sender's name and size.
use mathlib.Core.Path.{subst}
use nex_shell.Prelude.{
  ℕ, ◌≤◌, ◌≡◌, ◌≢◌, refl, ◌∙◌, Bool, true, false, Option, none, some, [], ◌∷◌, ◌++◌, arith,
  Bool-cases, inl, inr, Bytes, All, codes, Result, ok, err, parse_int, format_int, IsDigit,
  format_int-IsDigit, format_int-ne-nil, parse_int-format_int,
}
use nex_shell.Zmodem.Files.{
  contains, trim_right, safe_name, max_u32, metadata, split_zero, space_length, field_until,
  first_field, parse_size, size_of, named, parse_parts, parse_metadata,
}
use nex_shell.Zmodem.Wire.{Error}

-- What may come out of the metadata.
abbrev pub Accepted : Result Error (Bytes × ℕ) → Type 0
Accepted (ok (name, size)) = (safe_name name ≡ true) × (size ≤ max_u32)
Accepted (err e) = Unit {0}

size_of-le :
    (n : Option (Bool × ℕ)) (name : Bytes)
    → safe_name name ≡ true
    → Accepted (named name (size_of n))
unfolding size_of named
size_of-le none name s = tt
size_of-le (some (negative, n)) name s = ground arith

parse_size-Accepted :
    (field name : Bytes) → safe_name name ≡ true → Accepted (named name (parse_size field))
unfolding parse_size named
parse_size-Accepted [] name s = tt
parse_size-Accepted (c ∷ field) name s = size_of-le (parse_int (c ∷ field)) name s

parse_parts-Accepted : (name : Bytes) (rest : Option Bytes) → Accepted (parse_parts name rest)
unfolding parse_parts
parse_parts-Accepted name none = tt
parse_parts-Accepted name (some rest) = elim (Bool-cases (safe_name name)) [
  | inl s ↦ rw s (parse_size-Accepted (first_field 0 (trim_right 0 rest)) name s)
  | inr s ↦ rw s tt
]

pub parse_metadata-Accepted : (meta : Bytes) → Accepted (parse_metadata meta)
unfolding parse_metadata
parse_metadata-Accepted meta = parse_parts-Accepted (split_zero meta).0 (split_zero meta).1

split_zero-append :
    (name rest : Bytes)
    → contains 0 name ≡ false
    → split_zero (name ++ (0 ∷ rest)) ≡ (name, some rest)
unfolding split_zero contains
split_zero-append [] rest h = refl
split_zero-append (x ∷ name) rest h = ground (arith, split_zero-append name rest)

trim_right-digits :
    (s rest : Bytes)
    → All IsDigit s
    → trim_right 0 (s ++ (b' ' ∷ rest)) ≡ s ++ (b' ' ∷ trim_right 0 rest)
unfolding trim_right
trim_right-digits [] rest h = refl
trim_right-digits (x ∷ s) rest h = ground (arith, trim_right-digits s rest)

space_length-digit : (d : ℕ) (s : Bytes) → IsDigit d → space_length (d ∷ s) ≡ 0
unfolding space_length
space_length-digit d [] h = ground arith
space_length-digit d (a ∷ []) h = ground arith
space_length-digit d (a ∷ b ∷ s) h = ground arith

space_length-space : (s : Bytes) → space_length (b' ' ∷ s) ≡ 1
unfolding space_length
space_length-space [] = refl
space_length-space (a ∷ []) = refl
space_length-space (a ∷ b ∷ s) = refl

field_until-digits : (s rest : Bytes) → All IsDigit s → field_until (s ++ (b' ' ∷ rest)) ≡ s
unfolding field_until
field_until-digits [] rest h = rw (space_length-space rest)
field_until-digits (d ∷ s) rest h =
    rw (space_length-digit d (s ++ (b' ' ∷ rest)) h.0, field_until-digits s rest h.1)

first_field-digits :
    (s rest : Bytes) → s ≢ [] → All IsDigit s → first_field 0 (s ++ (b' ' ∷ rest)) ≡ s
unfolding first_field
first_field-digits [] rest ne h = absurd (ne refl)
first_field-digits (d ∷ s) rest ne h =
    rw (space_length-digit d (s ++ (b' ' ∷ rest)) h.0, field_until-digits s rest h.1)

parse_size-cons : (s : Bytes) → s ≢ [] → parse_size s ≡ size_of (parse_int s)
unfolding parse_size
parse_size-cons [] h = absurd (h refl)
parse_size-cons (c ∷ s) h = refl

parse_size-format_int : (size : ℕ) → size ≤ max_u32 → parse_size (format_int size) ≡ ok size
parse_size-format_int size h =
    parse_size-cons (format_int size) (format_int-ne-nil size)
    ∙ rw (parse_int-format_int size (omega arith)) (unfold size_of in ground arith)

no_zero : (name : Bytes) → safe_name name ≡ true → contains 0 name ≡ false
unfolding safe_name
no_zero name h = ground arith

-- The receiver reads the name and the size of the sender, for a safe name and a size below 4 GiB.
pub parse_metadata-metadata :
    (name : Bytes) (size : ℕ)
    → safe_name name ≡ true
    → size ≤ max_u32
    → parse_metadata (metadata name size) ≡ ok (name, size)
unfolding metadata parse_metadata
parse_metadata-metadata name size safe h =
    let digits = format_int size in
    let spaced = format_int-IsDigit size in
    let rest = codes "0 100600 0 1 " ++ (digits ++ 0 ∷ []) in
    rw (split_zero-append name (digits ++ (b' ' ∷ rest)) (no_zero name safe)) (
      unfold parse_parts named in
      rw (safe, trim_right-digits digits rest spaced)
        (rw (first_field-digits digits (trim_right 0 rest) (format_int-ne-nil size) spaced)
          (rw (parse_size-format_int size h))))

-- What the receiver takes from metadata, whatever the peer sends, is a safe name and a size that
-- fits 32 bits.
pub parse_metadata_safe :
    (meta name : Bytes) (size : ℕ)
    → parse_metadata meta ≡ ok (name, size)
    → (safe_name name ≡ true) × (size ≤ max_u32)
parse_metadata_safe meta name size h = subst Accepted h (parse_metadata-Accepted meta)
