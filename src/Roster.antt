-- ===== src/Roster.antt =====
-- Who may act in a room, and who holds its slots.
pub mod Role
pub mod Members
pub mod Slots
