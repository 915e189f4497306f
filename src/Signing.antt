-- ===== src/Signing.antt =====
-- packages/transactions/src: the making and the checking of signatures (keys.ts, utils.ts,
-- authorization.ts, transaction.ts and signer.ts).
pub mod Crypto
pub mod Keys
pub mod Hashes
pub mod SigHash
pub mod Verify
pub mod Conditions
pub mod Transaction
pub mod Signer
pub mod Laws
pub mod Recovery
pub mod Chain
pub mod Begin
pub mod SingleSig
pub mod Append
pub mod Progress
pub mod Finding
pub mod Runs
pub mod MultiSig
pub mod Accepted
pub mod Sponsor
pub mod Steps
pub mod Bounded
pub mod Structured
pub mod StructuredLaws
