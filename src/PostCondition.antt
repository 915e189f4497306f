-- ===== src/PostCondition.antt =====
-- packages/transactions/src/wire: post-conditions.
pub mod Types
pub mod Write
pub mod Read
pub mod RoundTrip
pub mod Builder
pub mod ToWire
pub mod Pieces
pub mod Built
