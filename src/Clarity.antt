-- ===== src/Clarity.antt =====
-- packages/transactions/src/clarity: Clarity values, their wire format, and how they are made.
pub mod Types
pub mod Names
pub mod Create
pub mod Entries
pub mod Serialize
pub mod Deserialize
pub mod Valid
pub mod Tagged
pub mod Leaves
pub mod Principals
pub mod Lists
pub mod Keys
pub mod Tuples
pub mod Nested
pub mod RoundTrip
pub mod Rejects
pub mod Ends
pub mod Terminates
