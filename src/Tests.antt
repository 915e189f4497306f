-- ===== src/Tests.antt =====
-- Concrete values, and the theorems at them.
mod Data
mod AuthData
mod SignData
mod SignTransactions
mod Signatures
mod Accepting
mod Calls
mod Structured
mod Stacking
mod Builders
mod Examples
