-- ===== src/Wire.antt =====
-- The wire layer of lxmf-rs/src/rns: MessagePack values, the error type and the conversions of
-- rns/mod.rs.
pub mod Value
pub mod Errors
pub mod Request
