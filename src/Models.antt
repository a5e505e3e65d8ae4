-- ===== src/Models.antt =====
-- models/: the immutable contract objects of the toolkit. `model_copy(update=...)` is `record r { … }`.
pub mod Json
pub mod Identifiers
pub mod Artifacts
pub mod Browser
pub mod Literals
pub mod Paths
pub mod Records
