-- ===== src/Zmodem/Headers/Reads.antt =====
-- `ReadHeader` writes nothing, and takes a byte at least from the input for each header.
use nex_shell.Prelude.{
  length-drop-le, ℕ, zero, suc, ◌≡◌, refl, ap, Bool, true, false, Option, none, some, [], ◌∷◌,
  arith, ◌==◌, Bytes, length, not, ◌||◌,
}
use nex_shell.Zmodem.Escape.{read_escaped}
use nex_shell.Zmodem.Headers.{
  read_full, peek_cancel, stars_in, after_stars, or_bad_hex, check_header, skip_line_end,
  read_hex_header, read_binary_header, read_header_loop, max_skipped, read_header,
}
use nex_shell.Zmodem.Wire.{transfer_cancelled, zdle, Codec, read_byte}
use nex_shell.Zmodem.Wire.Reads.{
  Later, Later-refl, Reads, Reads-if, Reads-fail, Takes, Takes-Reads, Reads-bind, Takes-bind,
  Takes-raw, Takes-escaped, read_rules,
}

Reads-read_full : (n : ℕ) → Reads (read_full n)
unfolding read_full
Reads-read_full n = record { later = λ c. ground (arith, length-drop-le n c.input) }

Reads-peek_cancel : (b : ℕ) → Reads (peek_cancel b)
unfolding peek_cancel
Reads-peek_cancel b = record { later = Later-refl }

stars_in-Later : (b : Bytes) (c : Codec) → c.input ≡ b → Later c (stars_in b c).1
unfolding stars_in
stars_in-Later [] c e = Later-refl c
stars_in-Later (v ∷ b) c e =
    ground (arith, stars_in-Later b (record c { input = b }) refl, ap length e)

Reads-after_stars : Reads after_stars
unfolding after_stars
Reads-after_stars = record { later = λ c. stars_in-Later c.input c refl }

Reads-or_bad_hex : (o : Option Bytes) → Reads (or_bad_hex o)
Reads-or_bad_hex none = search read_rules
Reads-or_bad_hex (some b) = search read_rules

Reads-check_header : (crc32 : Bool) (b : Bytes) → Reads (check_header crc32 b)
unfolding check_header
Reads-check_header true b = search read_rules
Reads-check_header false b = search read_rules

-- A byte that is put back was taken just before.
skip_line_end-Later :
    (b : Bytes) (c : Codec)
    → Later (record c { input = b }) (skip_line_end (record c { input = b })).1
unfolding skip_line_end read_byte
skip_line_end-Later [] c = Later-refl (record c { input = [] })
skip_line_end-Later (v ∷ []) c = ground arith
skip_line_end-Later (v ∷ w ∷ b) c = ground arith

Reads-skip_line_end : Reads skip_line_end
Reads-skip_line_end = record { later = λ c. skip_line_end-Later c.input c }

pub Reads-read_escaped : (n : ℕ) → Reads (read_escaped n)
unfolding read_escaped
Reads-read_escaped zero = search read_rules
Reads-read_escaped (suc n) =
    Reads-bind (Takes-Reads Takes-escaped)
      λ v. Reads-bind (Reads-read_escaped n) (λ b. search read_rules)

Reads-read_hex_header : Reads read_hex_header
unfolding read_hex_header
Reads-read_hex_header =
    search (read_rules, Reads-read_full, Reads-or_bad_hex, Reads-check_header, Reads-skip_line_end)
      depth 12

Reads-read_binary_header : (crc32 : Bool) → Reads (read_binary_header crc32)
unfolding read_binary_header
Reads-read_binary_header crc32 = search (read_rules, Reads-read_escaped, Reads-check_header)

Takes-read_header_loop : (limit : ℕ) → Takes (read_header_loop limit)
unfolding read_header_loop
Takes-read_header_loop zero = search read_rules
Takes-read_header_loop (suc limit) =
    let again = Takes-Reads (Takes-read_header_loop limit) in
    Takes-bind Takes-raw λ b. Reads-bind (Reads-peek_cancel b) λ stop.
      Reads-if stop (Reads-fail transfer_cancelled) (
        Reads-if (not (b == b'*')) again (
          Reads-bind Reads-after_stars λ b. Reads-if (not (b == zdle)) again (
            Reads-bind (Takes-Reads Takes-raw) λ kind.
              Reads-if (kind == b'B') Reads-read_hex_header (
                Reads-if (kind == b'A' || kind == b'C') (Reads-read_binary_header (kind == b'C'))
                  again))))

pub Takes-read_header : Takes read_header
unfolding read_header
Takes-read_header = Takes-read_header_loop max_skipped
