-- ===== src/Auth/Types.antt =====
-- packages/transactions/src/authorization.ts, wire/types.ts and constants.ts: spending conditions.
use funai_sdk.Prelude.{
  ℕ, Option, none, some, Bool, false, ◌&&◌, not, List, ◌∷◌, ◌==◌, if◌then◌else◌, ◌⊎◌, inl, inr,
  replicate,
}
use funai_sdk.Prelude.Int.{ℤ}
use funai_sdk.Js.Text.{JsString}
use funai_sdk.Js.Number.{Number}
use funai_sdk.Js.Result.{Result}
use funai_sdk.Bytes.Hex.{Bytes, bytes_to_hex}

-- The package @noble/secp256k1: `Point.fromHex(key).toHex(compressed)`.
pub record Curve : Type 0 where
  pub point_hex : Bool → JsString → Result JsString

pub data PubKeyEncoding : Type 0 where
  compressed uncompressed : PubKeyEncoding

pub data SingleSigHashMode : Type 0 where
  p2pkh p2wpkh : SingleSigHashMode

pub data MultiSigHashMode : Type 0 where
  p2sh p2wsh p2sh_non_sequential p2wsh_non_sequential : MultiSigHashMode

pub data AuthFieldType : Type 0 where
  public_key_compressed public_key_uncompressed : AuthFieldType
  signature_compressed signature_uncompressed : AuthFieldType

pub data AuthType : Type 0 where
  standard_type sponsored_type : AuthType

-- A public key is an array of bytes, a signature is a hex text.
pub data FieldContents : Type 0 where
  public_key : Bytes → FieldContents
  signature : JsString → FieldContents

pub record TransactionAuthField : Type 0 where
  pub pub_key_encoding : PubKeyEncoding
  pub contents : FieldContents

pub record SingleSig : Type 0 where
  pub hash_mode : SingleSigHashMode
  pub signer : JsString
  pub nonce : ℤ
  pub fee : ℤ
  pub key_encoding : PubKeyEncoding
  pub signature_text : JsString

pub record MultiSig : Type 0 where
  pub hash_mode : MultiSigHashMode
  pub signer : JsString
  pub nonce : ℤ
  pub fee : ℤ
  pub fields : List TransactionAuthField
  pub signatures_required : Number

pub data SpendingCondition : Type 0 where
  single : SingleSig → SpendingCondition
  multi : MultiSig → SpendingCondition

pub data Authorization : Type 0 where
  standard_auth : SpendingCondition → Authorization
  -- The origin's condition and the sponsor's.
  sponsored_auth : SpendingCondition → SpendingCondition → Authorization

unfoldable pub encoding_byte : PubKeyEncoding → ℕ
encoding_byte compressed = 0
encoding_byte uncompressed = 1

unfoldable pub pub_key_encoding_of : ℕ → Option PubKeyEncoding
pub_key_encoding_of n =
    if n == 0 then some compressed else if n == 1 then some uncompressed else none

unfoldable pub single_byte : SingleSigHashMode → ℕ
single_byte p2pkh = 0x00
single_byte p2wpkh = 0x02

unfoldable pub multi_byte : MultiSigHashMode → ℕ
multi_byte p2sh = 0x01
multi_byte p2wsh = 0x03
multi_byte p2sh_non_sequential = 0x05
multi_byte p2wsh_non_sequential = 0x07

-- The members of `AddressHashMode`.
unfoldable pub hash_mode_of : ℕ → Option (SingleSigHashMode ⊎ MultiSigHashMode)
hash_mode_of n =
    if n == 0x00
    then some (inl p2pkh)
    else if n == 0x01
    then some (inr p2sh)
    else if n == 0x02
    then some (inl p2wpkh)
    else if n == 0x03
    then some (inr p2wsh)
    else if n == 0x05
    then some (inr p2sh_non_sequential)
    else if n == 0x07
    then some (inr p2wsh_non_sequential)
    else none

unfoldable pub auth_field_type : ℕ → Option AuthFieldType
auth_field_type n =
    if n == 0x00
    then some public_key_compressed
    else if n == 0x01
    then some public_key_uncompressed
    else if n == 0x02
    then some signature_compressed
    else if n == 0x03
    then some signature_uncompressed
    else none

unfoldable pub auth_type : ℕ → Option AuthType
auth_type n =
    if n == 0x04 then some standard_type else if n == 0x05 then some sponsored_type else none

-- `startsWith('04')`
unfoldable pub starts_with_04 : JsString → Bool
starts_with_04 (c ∷ d ∷ _) = c == b'0' && d == b'4'
starts_with_04 _ = false

unfoldable pub public_key_is_compressed : Bytes → Bool
public_key_is_compressed key = not (starts_with_04 (bytes_to_hex key))

-- The signature of 65 zero bytes stands for one that is missing.
unfoldable pub empty_message_signature : JsString
empty_message_signature = bytes_to_hex (replicate 65 0)
