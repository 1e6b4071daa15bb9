-- ===== src/Negotiation.antt =====
-- Surface negotiation (negotiation/*.py): what a server declares, and which commands it allows.
pub mod Repair
pub mod Surfaces
pub mod Commands
pub mod Posture
pub mod RepairSteps
mod Tests
