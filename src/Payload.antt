-- ===== src/Payload.antt =====
-- packages/transactions/src/wire: the payloads of transactions.
pub mod Types
pub mod Create
pub mod Write
pub mod Read
pub mod Valid
pub mod Arguments
pub mod Transfers
pub mod Contracts
pub mod Blocks
pub mod RoundTrip
