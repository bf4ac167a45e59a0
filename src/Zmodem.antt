-- ===== src/Zmodem.antt =====
-- internal/transfer/zmodem: the frame codec and the two ends of a file transfer.
pub mod Wire
pub mod Crc
pub mod Escape
pub mod Data
pub mod Hex
pub mod Headers
pub mod Files
pub mod Disk
pub mod Receive
pub mod Send
pub mod Transfer
pub mod Agree
mod Tests
mod Sessions
