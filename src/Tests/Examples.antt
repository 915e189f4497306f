-- ===== src/Tests/Examples.antt =====
-- The theorems at concrete inputs.
use funai_sdk.Prelude.{ℕ, ◌<◌, ◌^◌, ◌≡◌, ◌++◌, refl, [], ◌∷◌, arith, some}
use funai_sdk.Prelude.Int.{pos, negsuc}
use funai_sdk.Js.Text.{js, includes}
use funai_sdk.Js.Number.{int}
use funai_sdk.Js.Result.{ok, ◌>>=◌}
use funai_sdk.Bytes.Hex.{bytes_to_hex, hex_to_bytes}
use funai_sdk.Bytes.HexLaws.{hex_to_bytes-bytes_to_hex}
use funai_sdk.Bytes.Ints.{int_to_bytes, bytes_to_big_int, to_twos, from_twos}
use funai_sdk.Bytes.IntLaws.{int_to_bytes-inverse}
use funai_sdk.Bytes.Twos.{from_twos-to_twos}
use funai_sdk.Bytes.Buffer.{read_uint32_be, write_uint32_be, read_uint16_be, write_uint16_be}
use funai_sdk.Bytes.Words.{read_uint32_be-write_uint32_be, read_uint16_be-write_uint16_be}
use funai_sdk.Platform.Sample.{sample_platform, sample_platform-PlatformLaws}
use funai_sdk.Reader.RoundTrips.{RoundTrips}
use funai_sdk.Wire.Strings.{name_of, lp_string-RoundTrips}
use funai_sdk.Wire.Memo.{memo-RoundTrips}
use funai_sdk.Wire.RoundTrip.{address-RoundTrips, asset-RoundTrips, principal-RoundTrips}
use funai_sdk.Wire.Write.{
  serialize_address_bytes, serialize_lp_string_bytes, serialize_memo_string_bytes,
  serialize_asset_bytes, serialize_principal_bytes,
}
use funai_sdk.Wire.Read.{
  deserialize_address, deserialize_lp_string, deserialize_memo_string, deserialize_asset,
  deserialize_principal,
}
use funai_sdk.Clarity.Names.{parse_contract_id, parse_contract_id-parts}
use funai_sdk.Clarity.Serialize.{serialize_cv_bytes}
use funai_sdk.Clarity.Deserialize.{deserialize_cv}
use funai_sdk.Clarity.Valid.{canonical}
use funai_sdk.Clarity.RoundTrip.{deserialize_cv-RoundTrips}
use funai_sdk.PostCondition.Write.{serialize_post_condition_bytes}
use funai_sdk.PostCondition.Read.{deserialize_post_condition}
use funai_sdk.PostCondition.RoundTrip.{canonical_condition, post_condition-RoundTrips}
use funai_sdk.Payload.Write.{serialize_payload_bytes}
use funai_sdk.Payload.Read.{deserialize_payload}
use funai_sdk.Payload.Valid.{canonical_payload}
use funai_sdk.Payload.RoundTrip.{payload-RoundTrips}
use funai_sdk.Tests.Data.{
  owner, owner-IsAddress, token, token-IsName, thanks, thanks-IsMemo, token_asset,
  token_asset-IsAsset, token_contract, token_contract-IsPrincipal, pair, pair-IsValid, sends_pair,
  sends_pair-IsPostCondition, call, call-IsPayload,
}
use funai_sdk.Auth.Types.{single}
use funai_sdk.Auth.Fields.{serialize_auth_field_bytes, deserialize_auth_field}
use funai_sdk.Auth.Authorization.{
  serialize_authorization_bytes, deserialize_authorization, get_fee, set_fee, set_nonce,
  set_sponsor_nonce, set_sponsor, into_initial_sighash_auth,
}
use funai_sdk.Auth.FieldLaws.{field-RoundTrips}
use funai_sdk.Auth.RoundTrip.{authorization-RoundTrips}
use funai_sdk.Auth.Fees.{get_fee-set_fee, into_initial_sighash_auth_lem}
use funai_sdk.Tests.AuthData.{
  sample_curve, sponsored, sponsored-IsAuthorization, signed_field, signature_text-IsHex,
  sponsor_condition,
}
use funai_sdk.Transaction.Wire.{serialize_transaction_bytes, deserialize_transaction}
use funai_sdk.Transaction.RoundTrip.{canonical_transaction, transaction-RoundTrips}
use funai_sdk.Tests.AuthData.{sample_transaction, sample_transaction-IsTransaction}
use funai_sdk.Js.Result.{err, unknown_clarity_type}
use funai_sdk.Reader.{new_reader}
use funai_sdk.Clarity.Rejects.{deserialize_cv-unknown}

deserialize_cv-RoundTrips_example :
    RoundTrips
      (serialize_cv_bytes sample_platform pair)
      (deserialize_cv sample_platform)
      (canonical sample_platform pair)
deserialize_cv-RoundTrips_example =
    deserialize_cv-RoundTrips sample_platform sample_platform-PlatformLaws pair pair-IsValid

payload-RoundTrips_example :
    RoundTrips
      (serialize_payload_bytes sample_platform call)
      (deserialize_payload sample_platform)
      (canonical_payload sample_platform call)
payload-RoundTrips_example =
    payload-RoundTrips sample_platform sample_platform-PlatformLaws call call-IsPayload

post_condition-RoundTrips_example :
    RoundTrips
      (serialize_post_condition_bytes sample_platform sends_pair)
      (deserialize_post_condition sample_platform)
      (canonical_condition sample_platform sends_pair)
post_condition-RoundTrips_example =
    post_condition-RoundTrips sample_platform sample_platform-PlatformLaws sends_pair
      sends_pair-IsPostCondition

principal-RoundTrips_example :
    RoundTrips
      (serialize_principal_bytes sample_platform token_contract)
      (deserialize_principal sample_platform)
      token_contract
principal-RoundTrips_example =
    principal-RoundTrips sample_platform sample_platform-PlatformLaws token_contract
      token_contract-IsPrincipal

asset-RoundTrips_example :
    RoundTrips
      (serialize_asset_bytes sample_platform token_asset)
      (deserialize_asset sample_platform)
      token_asset
asset-RoundTrips_example =
    asset-RoundTrips sample_platform sample_platform-PlatformLaws token_asset token_asset-IsAsset

memo-RoundTrips_example :
    RoundTrips
      (serialize_memo_string_bytes sample_platform thanks)
      (deserialize_memo_string sample_platform)
      thanks
memo-RoundTrips_example =
    memo-RoundTrips sample_platform sample_platform-PlatformLaws thanks thanks-IsMemo

lp_string-RoundTrips_example :
    RoundTrips
      (serialize_lp_string_bytes sample_platform (name_of token))
      (deserialize_lp_string sample_platform (some 1) (some 128))
      (name_of token)
lp_string-RoundTrips_example =
    lp_string-RoundTrips sample_platform sample_platform-PlatformLaws 0 127 (name_of token)
      (omega arith) token-IsName

address-RoundTrips_example : RoundTrips (serialize_address_bytes owner) deserialize_address owner
address-RoundTrips_example = address-RoundTrips owner owner-IsAddress

hex_to_bytes-bytes_to_hex_example :
    hex_to_bytes (bytes_to_hex (0xde ∷ 0xad ∷ [])) ≡ ok (0xde ∷ 0xad ∷ [])
hex_to_bytes-bytes_to_hex_example = hex_to_bytes-bytes_to_hex (0xde ∷ 0xad ∷ []) (omega arith)

int_to_bytes-inverse_example : (int_to_bytes (pos 560) 4 >>= bytes_to_big_int) ≡ ok 560
int_to_bytes-inverse_example = int_to_bytes-inverse 4 560 (omega arith) (omega arith)

from_twos-to_twos_example :
    (n : ℕ) × (to_twos (negsuc 4) 8 ≡ ok (pos n)) × (n < 2 ^ 8) × (from_twos n 8 ≡ negsuc 4)
from_twos-to_twos_example = from_twos-to_twos 7 (negsuc 4) (omega arith)

read_uint32_be-write_uint32_be_example : read_uint32_be (write_uint32_be 70_000) ≡ int (pos 70_000)
read_uint32_be-write_uint32_be_example = read_uint32_be-write_uint32_be 70_000 (omega arith)

read_uint16_be-write_uint16_be_example : read_uint16_be (write_uint16_be 700) ≡ int (pos 700)
read_uint16_be-write_uint16_be_example = read_uint16_be-write_uint16_be 700 (omega arith)

parse_contract_id-parts_example :
    parse_contract_id (js "SP" ++ (b'.' ∷ js "token")) ≡ ok (js "SP", js "token")
parse_contract_id-parts_example =
    parse_contract_id-parts (js "SP") (js "token") (unfold includes in refl)
      (unfold includes in refl) (omega arith) (omega arith)

authorization-RoundTrips_example :
    RoundTrips
      (serialize_authorization_bytes sample_curve sponsored)
      (deserialize_authorization sample_curve)
      sponsored
authorization-RoundTrips_example =
    authorization-RoundTrips sample_curve sponsored sponsored-IsAuthorization

field-RoundTrips_example :
    RoundTrips
      (serialize_auth_field_bytes sample_curve signed_field)
      (deserialize_auth_field sample_curve)
      signed_field
field-RoundTrips_example = field-RoundTrips sample_curve signed_field signature_text-IsHex

get_fee-set_fee_example :
    (get_fee (set_fee sponsored (pos 5)) ≡ pos 5)
    × (get_fee (set_nonce sponsored (pos 9)) ≡ get_fee sponsored)
    × (get_fee (set_sponsor_nonce sponsored (pos 9)) ≡ get_fee sponsored)
get_fee-set_fee_example = get_fee-set_fee sponsored (pos 5) (pos 9)

into_initial_sighash_auth_lem_example :
    (into_initial_sighash_auth (set_fee sponsored (pos 5)) ≡ into_initial_sighash_auth sponsored)
    × (into_initial_sighash_auth (set_nonce sponsored (pos 9))
        ≡ into_initial_sighash_auth sponsored)
    × (into_initial_sighash_auth (set_sponsor sponsored (single sponsor_condition))
        ≡ into_initial_sighash_auth sponsored)
    × (into_initial_sighash_auth (into_initial_sighash_auth sponsored)
        ≡ into_initial_sighash_auth sponsored)
into_initial_sighash_auth_lem_example =
    into_initial_sighash_auth_lem sponsored (pos 5) (pos 9) (single sponsor_condition)

transaction-RoundTrips_example :
    RoundTrips
      (serialize_transaction_bytes sample_platform sample_curve sample_transaction)
      (deserialize_transaction sample_platform sample_curve)
      (canonical_transaction sample_platform sample_transaction)
transaction-RoundTrips_example =
    transaction-RoundTrips sample_platform sample_platform-PlatformLaws sample_curve
      sample_transaction sample_transaction-IsTransaction

deserialize_cv-unknown_example :
    deserialize_cv sample_platform (new_reader (0x0f ∷ 1 ∷ [])) ≡ err unknown_clarity_type
deserialize_cv-unknown_example = deserialize_cv-unknown sample_platform 0x0f (1 ∷ []) (omega arith)
