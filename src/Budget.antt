-- ===== src/Budget.antt =====
-- Budgets and limits of runs (budget/*.py).
pub mod Repair
pub mod Outcomes
pub mod Parser
mod Tests
