-- ===== src/Quic.antt =====
-- The MASQUE tunnel over QUIC of aether/src/quic.rs.
pub mod Connection
pub mod Run
pub mod Core
pub mod Soundness
pub mod Returning
pub mod Deadline
pub mod Framing
pub mod Verify
mod Tests
