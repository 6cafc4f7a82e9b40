-- ===== src/Lobby.antt =====
-- Whom a lobby names for the slots of a room: puna-web/src/lobby.rs.
pub mod Names
pub mod Passes
pub mod Import
pub mod Named
pub mod Once
pub mod Admitted
