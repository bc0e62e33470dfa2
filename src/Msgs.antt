-- ===== src/Msgs.antt =====
-- Package msgs: the wire format that the comet and the bus share.
pub mod Checksum
pub mod Frame
pub mod Status
pub mod Inspect
pub mod Pitfalls
mod Tests
