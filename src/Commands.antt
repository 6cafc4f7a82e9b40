-- ===== src/Commands.antt =====
-- The console: what may be asked of a running room, the queue it is asked through, and the dispatcher.
pub mod Probe
pub mod Kind
pub mod Queue
pub mod Console
pub mod Dispatch
pub mod Drain
