-- ===== src/Transport.antt =====
-- src/transport.rs.
pub mod Bbt
pub mod Position
pub mod Control
pub mod Samples
mod Tests
