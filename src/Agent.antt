-- ===== src/Agent.antt =====
-- internal/agent and internal/localfiles: what the assistant may do on a server or on this machine.
pub mod Types
pub mod Paths
pub mod Policy
pub mod Gate
pub mod Verify
pub mod References
pub mod Service
pub mod Retry
pub mod Recovery
pub mod History
mod Tests
mod TurnTests
