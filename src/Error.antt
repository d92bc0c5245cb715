-- ===== src/Error.antt =====
-- aether/src/error.rs: the variants of `AetherError`, without the messages that they carry.
pub data AetherError : Type 0 where
  io quic h3 tls ech masque no_clean_endpoint capsule api other : AetherError
