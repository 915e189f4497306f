-- ===== src/Bytes.antt =====
-- packages/common/src/utils.ts and packages/common/src/buffer.ts: byte arrays, their hex texts,
-- integers as bytes, and two's complement.
pub mod Hex
pub mod Ints
pub mod Buffer
pub mod HexLaws
pub mod IntLaws
pub mod ParseLaws
pub mod Twos
pub mod Words
