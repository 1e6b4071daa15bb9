-- ===== src/Host.antt =====
-- Host identity (host/*.py): coherence of the command line's identity with the hosts', and the
-- comparison of the three layers of one host. The report of the doctor (doctor/*.py).
pub mod Coherence
pub mod Verdicts
pub mod Reconciler
pub mod Layers
pub mod Doctor
mod Tests
