-- ===== src/Spec.antt =====
-- What a room's pod is to be: puna-orchestrator/src/spec.
pub mod Sizing
pub mod Argv
pub mod Fingerprint
pub mod Pod
pub mod Secret
