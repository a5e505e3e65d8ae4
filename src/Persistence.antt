-- ===== src/Persistence.antt =====
-- The package persistence/: what is stored of the records, and how they come back.
pub mod Stored
pub mod Config
pub mod Rows
pub mod Repositories
pub mod Fixture
mod Tests
