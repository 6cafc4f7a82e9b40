-- ===== src/Model.antt =====
-- The room's vocabulary of puna-core/src/model/room.rs.
pub mod RoomState
pub mod DesiredState
pub mod SlotAuth
