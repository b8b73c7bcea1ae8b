-- ===== src/Protocol.antt =====
-- spacemolt-lib-rs: the requests in flight of src/transport/correlator.rs.
pub mod Frames
pub mod Correlator
pub mod Counting
pub mod Once
mod Tests
