-- ===== src/Store.antt =====
-- crates/tith-store/src/: the durable store.
pub mod Types
pub mod Bytes
pub mod JobCodes
pub mod JobCodec
pub mod Table
pub mod Events
pub mod Outbound
pub mod Inbound
pub mod KeyPin
