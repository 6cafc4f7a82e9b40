-- ===== src/Steps.antt =====
-- The row of a room and what each step writes to it: puna-orchestrator/src/steps.rs, with the view
-- of the row that puna-orchestrator/src/reconcile.rs hands to the planner.
pub mod Row
pub mod Backoff
pub mod Execute
pub mod View
pub mod Keeps
pub mod Invariant
pub mod Handlers
pub mod Life
pub mod Failing
pub mod Writes
