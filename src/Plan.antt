-- ===== src/Plan.antt =====
-- The planner: puna-orchestrator/src/plan.rs.
pub mod View
pub mod Decide
pub mod Pass
