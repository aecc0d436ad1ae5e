-- ===== src/Exchange.antt =====
-- crates/tith-exchange: who has answered which request, and the order of a client's session.
pub mod Tracker
pub mod Session
mod Runs
