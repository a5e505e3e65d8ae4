-- ===== src/Resilience.antt =====
-- The package resilience/: what an operator is told of an exception, and retries.
pub mod Operator
pub mod Native
pub mod Classification
pub mod Retry
mod Tests
