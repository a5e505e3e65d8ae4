-- ===== src/Artifacts.antt =====
-- The package artifacts/: files under a trusted data directory, and the references to them.
pub mod FileSystem
pub mod Mime
pub mod Paths
pub mod Manager
pub mod Fixture
mod Tests
