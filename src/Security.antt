-- ===== src/Security.antt =====
-- security/redaction.py and resilience/operator_redaction.py: what may reach logs, output and rows.
pub mod Redaction
pub mod Operator
pub mod Mapping
pub mod Fixture
mod Tests
