-- ===== src/Ops.antt =====
-- The package ops/, as far as it decides what is run and what is told of a failure.
pub mod Modes
pub mod Failures
pub mod Extra
mod Tests
