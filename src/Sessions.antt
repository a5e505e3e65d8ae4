-- ===== src/Sessions.antt =====
-- sessions/: the lifecycle of one managed run.
pub mod Collaborators
pub mod Paths
pub mod StateStore
pub mod Manager
