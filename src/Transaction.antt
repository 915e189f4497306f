-- ===== src/Transaction.antt =====
-- packages/transactions/src/transaction.ts: whole transactions.
pub mod Types
pub mod Wire
pub mod RoundTrip
