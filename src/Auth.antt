-- ===== src/Auth.antt =====
-- packages/transactions/src/authorization.ts: who authorizes and pays for a transaction.
pub mod Types
pub mod Fields
pub mod Spending
pub mod Authorization
pub mod FieldLaws
pub mod Valid
pub mod RoundTrip
pub mod Fees
