-- ===== src/Transport.antt =====
-- lxmf-rs/src/rns/transport.rs: what a message becomes on the network, and what the network's data
-- become.
pub mod Outbound
pub mod Addressed
pub mod Carried
pub mod Inbound
pub mod Policy
pub mod Encrypted
pub mod Arrival
pub mod Propagated
