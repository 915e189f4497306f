-- ===== src/Js.antt =====
-- What the program uses of the language: strings as UTF-16 code units, numbers that may be NaN,
-- `Number.parseInt(s, 16)`, `padStart`, `padEnd` and `split`, and the ways that a call can throw.
pub mod Result
pub mod Text
pub mod Number
pub mod Inversion
