-- ===== src/Comet.antt =====
-- The comet process: the sessions of phones and devices, and the bus that it sends to.
pub mod Ids
pub mod Sequence
pub mod Udp
pub mod Redis
pub mod Buses
pub mod Connections
pub mod Sessions
pub mod Login
pub mod Status
pub mod Report
mod Tests
