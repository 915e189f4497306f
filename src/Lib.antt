-- ===== src/Lib.antt =====
-- The wire formats of funai-sdk: how transactions, their Clarity values,
-- post-conditions, payloads and authorizations are made, serialized and deserialized, and how
-- transactions are signed and their signatures checked.
--
-- The program. packages/common turns integers into bytes and hex texts (src/utils.ts, src/buffer.ts).
-- packages/transactions stands on it: src/BytesReader.ts is the cursor that all deserializers share,
-- src/clarity holds the Clarity values, and src/wire the other structures of a transaction. A
-- serializer concatenates the bytes of its parts (`concatArray`); a deserializer reads a type byte,
-- then the parts, and moves the cursor.
--
-- The files.
--   Prelude, Prelude/*: the names the other modules share, native numbers, integers and lists.
--   Js, Js/*: what the code uses of the language. `Js.Result` has a constructor for each error that
--     the code throws; `Js.Number` has integers and NaN, `parseInt` and `toString` in base 16;
--     `Js.Text` has strings as lists of UTF-16 code units.
--   Bytes, Bytes/*: packages/common/src/utils.ts and buffer.ts. Definitions in Hex, Ints and Buffer
--     (`hexToBytes` is `hex_to_bytes`, and so on), laws in HexLaws, IntLaws, ParseLaws, Twos, Words.
--   Platform: TextEncoder, TextDecoder, `localeCompare` and the package c32check as parameters, with
--     the laws that are documented of them. Platform/Sample has a platform that keeps the laws.
--   Reader, Reader/*: packages/transactions/src/BytesReader.ts as state passing. Reader/Reads has
--     the rules by which the readings of a deserializer are composed, and Reader/Cursor those by which
--     its calls end.
--   Wire, Wire/*: strings, memos, addresses, assets and principals of src/wire/types.ts, create.ts,
--     helpers.ts and serialization.ts of packages/transactions.
--   Clarity, Clarity/*: src/clarity of packages/transactions. Types, Names, Create, Entries (the
--     entries of objects), Serialize and Deserialize are definitions; Valid says which values the
--     theorems are about; Leaves, Principals, Lists, Keys, Tuples and Nested prove the cases of the
--     round trip, and RoundTrip joins them; Rejects has the sources that are refused,
--     and Ends and Terminates show that every source is read or refused.
--   PostCondition, PostCondition/*, Payload, Payload/*: post-conditions and payloads of src/wire, and
--     the builders of post-conditions of src/pc.ts and src/postcondition.ts (Builder and ToWire, about
--     which Pieces and Built are).
--   Auth, Auth/*: src/authorization.ts, and the lists of authorization fields of src/wire. The package
--     @noble/secp256k1 is the parameter `Curve`. Types, Fields, Spending and Authorization are
--     definitions; Valid, FieldLaws, RoundTrip and Fees are about them.
--   Transaction, Transaction/*: `serializeBytes` and `deserializeTransaction` of src/transaction.ts,
--     over the parts above.
--   Signing, Signing/*: keys and hashes (src/keys.ts, src/utils.ts, and src/keys.ts and signatures.ts of
--     packages/common), the chain of signature hashes and its check (src/authorization.ts), the methods
--     of a transaction that sign (src/transaction.ts), `TransactionSigner` (src/signer.ts), and the
--     signing by the keys at hand (src/builders.ts). Crypto has the hash functions and the curve as
--     parameters, and Laws what is documented of them. Keys, Hashes, SigHash, Verify, Conditions,
--     Transaction, Signer and Append are definitions. Recovery and Chain are about one signature,
--     SingleSig about a transaction with one; Progress, Finding, Runs and MultiSig about those with
--     several; Accepted says what an accepted condition is, Sponsor what a sponsor's signer refuses; Steps
--     and Bounded are about any run of a signer's calls. Structured and StructuredLaws are about
--     src/structuredDataSignature.ts.
--   Stacking, Stacking/*: Bitcoin addresses and reward tuples (src/utils.ts and src/constants.ts of
--     packages/stacking) and base58 with a checksum (src/keys.ts of packages/encryption). The package
--     @scure/base is the parameter `Codec`. Base58, Address and Bitcoin are definitions; Tuple and
--     Legacy are about them.
--   Tests, Tests/*: concrete values, and the theorems at them.
--
-- Bounds and fuel. A word is written modulo its width, as the code does. `deserializeCV` calls
-- itself on nested values; the model spends a unit of fuel for each level, and gets one unit more
-- than its source is long. Each level takes a byte of the source, which is why this is
-- enough on every source (Clarity/Terminates).
--
-- What is valid. Clarity/Valid, Wire/RoundTrip, PostCondition/RoundTrip, Payload/Valid, Auth/Valid and
-- Transaction/RoundTrip say it for each type: numbers fit their width, hashes and signatures have
-- their size, texts fit their length prefix and have no lone surrogate and no byte order mark, the
-- keys of a tuple are distinct Clarity names. The functions that make values ensure most of it; a
-- contract name of exactly 128 bytes is made by `createLPString`, but `deserializeCV` rejects it.
--
-- Not modelled: decimal texts as integers, the hex texts around the byte arrays, network requests,
-- SHA-2, RIPEMD-160 and secp256k1, base58 and bech32, and the packages other than common and
-- transactions but for what is named above. An
-- object's properties are a list of entries in the order of its keys; `as PrincipalCV` checks
-- nothing, so a recipient is any Clarity value. A deserializer is given a reader, as the code does
-- for nested calls.
pub mod Prelude
pub mod Js
pub mod Bytes
pub mod Reader
pub mod Platform
pub mod Wire
pub mod Clarity
pub mod PostCondition
pub mod Payload
pub mod Auth
pub mod Transaction
pub mod Signing
pub mod Stacking
pub mod Tests
