-- ===== src/Reader/RoundTrips.antt =====
-- A serializer and a deserializer that agree on a value.
use funai_sdk.Prelude.{◌≡◌, All}
use funai_sdk.Js.Result.{Result, ok}
use funai_sdk.Bytes.Hex.{Bytes, IsByte}
use funai_sdk.Reader.{Reader}
use funai_sdk.Reader.Reads.{Reads}

-- What is written is an array of bytes, and wherever it stands `p` reads `a` off it.
pub record RoundTrips {ℓ} {A : Type ℓ} (written : Result Bytes) (p : Reader A) (a : A)
    : Type ℓ where
  pub wire : Bytes
  pub writes : written ≡ ok wire
  pub are_bytes : All IsByte wire
  pub reads : Reads p wire a
