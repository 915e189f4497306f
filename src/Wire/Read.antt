-- ===== src/Wire/Read.antt =====
-- packages/transactions/src/wire/serialization.ts: the deserializers of addresses, strings, assets
-- and principals.
use funai_sdk.Prelude.{ℕ, Option, none, some, [], ◌∷◌, ◌==◌, if◌then◌else◌}
use funai_sdk.Prelude.Int.{pos}
use funai_sdk.Js.Text.{JsString}
use funai_sdk.Js.Number.{int}
use funai_sdk.Js.Result.{unknown_principal}
use funai_sdk.Bytes.Hex.{bytes_to_hex, hex_to_int}
use funai_sdk.Platform.{Platform}
use funai_sdk.Reader.{Reader, pure, lift, ◌>>=◌, read_bytes, read_uint8_enum}
use funai_sdk.Wire.Create.{or_default, some_or, create_lp_string, memo_max_length_bytes}
use funai_sdk.Wire.Types.{
  AddressWire, LengthPrefixedStringWire, MemoStringWire, AssetWire, PostConditionPrincipalWire,
  PostConditionPrincipalId, origin, standard, contract, origin_id, standard_id, contract_id,
  principal_id,
}

unfoldable pub deserialize_address : Reader AddressWire
deserialize_address = do
  version_bytes ← read_bytes (int (pos 1))
  data_bytes ← read_bytes (int (pos 20))
  pure (record {
    version = hex_to_int (bytes_to_hex version_bytes);
    hash160 = bytes_to_hex data_bytes;
  })

unfoldable pub deserialize_lp_string :
    Platform → Option ℕ → Option ℕ → Reader LengthPrefixedStringWire
deserialize_lp_string env prefix max_length = do
  let prefix_bytes = or_default prefix 1
  length_bytes ← read_bytes (int (pos prefix_bytes))
  content_bytes ← read_bytes (hex_to_int (bytes_to_hex length_bytes))
  lift (
      create_lp_string env (env.bytes_to_utf8 content_bytes) (some prefix_bytes)
        (some (some_or max_length 128)))

-- `content.replace(/\u0000*$/, '')`: a character is kept where it is no null, or one that is kept
-- follows.
unfoldable pub keep_before : ℕ → JsString → JsString
keep_before c [] = if c == 0 then [] else c ∷ []
keep_before c (d ∷ ds) = c ∷ d ∷ ds

unfoldable pub strip_nulls : JsString → JsString
strip_nulls [] = []
strip_nulls (c ∷ cs) = keep_before c (strip_nulls cs)

unfoldable pub deserialize_memo_string : Platform → Reader MemoStringWire
deserialize_memo_string env = do
  content_bytes ← read_bytes (int (pos memo_max_length_bytes))
  pure (record { content = strip_nulls (env.bytes_to_utf8 content_bytes) })

unfoldable pub deserialize_asset : Platform → Reader AssetWire
deserialize_asset env = do
  address ← deserialize_address
  contract_name ← deserialize_lp_string env none none
  asset_name ← deserialize_lp_string env none none
  pure (record { address = address; contract_name = contract_name; asset_name = asset_name })

unfoldable pub deserialize_principal_of :
    Platform → PostConditionPrincipalId → Reader PostConditionPrincipalWire
deserialize_principal_of env origin_id = pure origin
deserialize_principal_of env standard_id = do address ← deserialize_address; pure (standard address)
deserialize_principal_of env contract_id = do
  address ← deserialize_address
  contract_name ← deserialize_lp_string env none none
  pure (contract address contract_name)

unfoldable pub deserialize_principal : Platform → Reader PostConditionPrincipalWire
deserialize_principal env = do
  prefix ← read_uint8_enum principal_id unknown_principal
  deserialize_principal_of env prefix
