-- ===== src/Wire.antt =====
-- packages/transactions/src/wire: the wire forms of addresses, strings, assets and principals.
pub mod Types
pub mod Create
pub mod Write
pub mod Read
pub mod RoundTrip
pub mod Strings
pub mod Memo
pub mod HexText
