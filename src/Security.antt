-- ===== src/Security.antt =====
-- security/: the keys of messages and where they are kept.
pub mod Key
pub mod Keystore
pub mod Plain
