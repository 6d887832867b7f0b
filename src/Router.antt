-- ===== src/Router.antt =====
-- lxmf-rs/src/rns/router.rs and the store of lxmf-rs/src/rns/storage.rs, a module per component.
pub mod DeliveredCache
pub mod Requests
pub mod Queue
pub mod Tickets
pub mod Runtime
pub mod SyncNode
pub mod Links
