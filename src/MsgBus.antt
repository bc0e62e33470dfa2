-- ===== src/MsgBus.antt =====
-- The msgbus process: which comet each user is on, and the messages between the comets.
pub mod UserMap
pub mod Online
pub mod Comets
pub mod Status
mod Tests
pub mod Push
pub mod Loading
pub mod Handle
