-- ===== src/Registration.antt =====
-- Registration of a repository (registration/*.py).
pub mod Readiness
mod Tests
