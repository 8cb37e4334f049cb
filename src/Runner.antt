-- ===== src/Runner.antt =====
-- The runner of internal/runner.
pub mod Json
pub mod Patterns
pub mod Observation
pub mod Plan
pub mod Observe
pub mod Bundle
pub mod Outputs
pub mod Artifacts
pub mod Diagnostics
pub mod Commands
pub mod Factory
mod Tests
