-- ===== src/Diagnostics.antt =====
-- diagnostics/: passive capture on handles that are already open.
pub mod Suffix
pub mod Recorder
pub mod Tracing
