-- ===== src/Sessions/Manager.antt =====
-- sessions/manager.py: `SessionManager` and `ManagedSessionContext`.
pub mod State
pub mod Trace
pub mod Fixture
pub mod Enter
pub mod Exit
