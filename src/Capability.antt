-- ===== src/Capability.antt =====
-- Capability names, their resolution, and what it writes (capability/*.py).
pub mod Repair
pub mod Namespace
pub mod Outcomes
pub mod Resolver
pub mod Materializer
mod Tests
mod ResolverTests
mod MaterializerTests
