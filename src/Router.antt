-- ===== src/Router.antt =====
-- internal/transfer/router.go: how `pump` finds the start of a transfer in the terminal's output.
pub mod Scan
pub mod Pump
mod Tests
use nex_shell.Prelude.{
  ℕ, Bool, true, false, List, [], ◌∷◌, ◌++◌, if◌then◌else◌, Bytes, length, take, bytes_equal,
}
use nex_shell.Zmodem.Wire.{zdle}

abbrev pub magic : Bytes
magic = b'*' ∷ b'*' ∷ zdle ∷ b'B' ∷ []

-- `bytes.HasPrefix(magic, p)`
unfoldable pub begins_magic : Bytes → Bool
begins_magic p = bytes_equal (take (length p) magic) p

-- The bytes for the display, and those that may turn out to begin a frame.
pub record Held : Type 0 where
  pub normal : Bytes
  pub pending : Bytes

-- the loop that gives up bytes until the rest may begin a frame
unfoldable pub release : Bytes → Bytes → Held
release normal [] = record { normal = normal; pending = [] }
release normal (x ∷ p) =
    let rest = release (normal ++ x ∷ []) p in
    if begins_magic (x ∷ p) then record { normal = normal; pending = x ∷ p } else rest

-- the next byte
unfoldable pub scan_byte : ℕ → Held → Held
scan_byte b s = release s.normal (s.pending ++ b ∷ [])

abbrev pub nothing_held : Held
nothing_held = record { normal = []; pending = [] }
