-- ===== src/Terminal.antt =====
-- internal/terminal: the input of the emulator.
pub mod Input
mod Tests
