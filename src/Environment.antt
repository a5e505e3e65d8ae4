-- ===== src/Environment.antt =====
-- The package environment/: the effective launch and context configuration of a run.
pub mod Models
pub mod Services
pub mod Resolver
mod Tests
