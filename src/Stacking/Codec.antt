-- ===== src/Stacking/Codec.antt =====
-- The encodings of @scure/base: base58, and bech32 and bech32m, whose words have five bits.
use funai_sdk.Prelude.{ℕ, List}
use funai_sdk.Js.Text.{JsString}
use funai_sdk.Js.Result.{Result}
use funai_sdk.Bytes.Hex.{Bytes}

pub record Codec : Type 0 where
  pub base58_decode : JsString → Result Bytes
  pub base58_encode : Bytes → JsString
  pub bech32_decode : JsString → Result (List ℕ)
  pub bech32_encode : JsString → List ℕ → Result JsString
  pub bech32m_decode : JsString → Result (List ℕ)
  pub bech32m_encode : JsString → List ℕ → Result JsString
  pub from_words : List ℕ → Result Bytes
  pub to_words : Bytes → List ℕ
