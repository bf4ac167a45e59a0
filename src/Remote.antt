-- ===== src/Remote.antt =====
-- internal/remote: the commands for a server, and the execution of a request.
pub mod Command
pub mod Executor
mod Tests
