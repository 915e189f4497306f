-- ===== src/Wire/HexText.antt =====
-- Hashes and signatures: hex texts of a fixed number of bytes.
use funai_sdk.Prelude.{ℕ, ◌≡◌, length, All}
use funai_sdk.Prelude.Int.{pos}
use funai_sdk.Js.Text.{JsString}
use funai_sdk.Js.Number.{int}
use funai_sdk.Js.Result.{ok}
use funai_sdk.Bytes.Hex.{Bytes, IsByte, bytes_to_hex, hex_to_bytes}
use funai_sdk.Bytes.HexLaws.{hex_to_bytes-bytes_to_hex}
use funai_sdk.Reader.{read_bytes}
use funai_sdk.Reader.Reads.{Reads, read_bytes-Reads}

-- The hex text of `size` bytes.
pub record IsHex (size : ℕ) (text : JsString) : Type 0 where
  pub data_bytes : Bytes
  pub are_bytes : All IsByte data_bytes
  pub size_is : length data_bytes ≡ size
  pub text_is : text ≡ bytes_to_hex data_bytes

pub hex-Reads :
    (size : ℕ) (text : JsString) (h : IsHex size text)
    → Reads (read_bytes (int (pos size))) h.data_bytes h.data_bytes
hex-Reads size text h = rw (h.size_is) at (read_bytes-Reads h.data_bytes)

pub hex-writes :
    {size : ℕ} {text : JsString} (h : IsHex size text) → hex_to_bytes text ≡ ok h.data_bytes
hex-writes h = rw (h.text_is) (hex_to_bytes-bytes_to_hex h.data_bytes h.are_bytes)
