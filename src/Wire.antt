-- ===== src/Wire.antt =====
-- crates/tith-wire: canonical integers, TLVs and the formats built from them.
pub mod Integer
pub mod Signed
pub mod TypeCode
pub mod Tlv
pub mod Stream
pub mod Address
pub mod Validity
pub mod Pattern
pub mod Item
pub mod Types
pub mod Cursor
pub mod Carrier
mod Runs
