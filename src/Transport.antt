-- ===== src/Transport.antt =====
-- The governed transport (transport/*.py): registry of operations, backoff, proof trail, client.
pub mod Registry
pub mod Retry
pub mod Proof
pub mod Errors
pub mod Client
pub mod Call
mod Tests
