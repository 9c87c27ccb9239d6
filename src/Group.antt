-- ===== src/Group.antt =====
-- Group rooms: server/room/groupRoom.
pub mod Level
pub mod Permission
pub mod Room
