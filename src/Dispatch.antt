-- ===== src/Dispatch.antt =====
-- Checks before a dispatch (dispatch/*.py) against the operations that the server advertises
-- (discovery/operations.py).
pub mod Models
pub mod Names
pub mod Schemas
pub mod Operations
pub mod Validator
pub mod Schema
pub mod Preflight
mod Tests
