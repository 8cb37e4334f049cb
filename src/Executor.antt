-- ===== src/Executor.antt =====
-- The executors of internal/executor.
mod Tests
pub mod Remote
pub mod Injection
pub mod Standard
pub mod Scheduling
pub mod Polling
