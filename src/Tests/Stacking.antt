-- ===== src/Tests/Stacking.antt =====
-- A Bitcoin address and its tuple, with a base58 text that is a `1` in front of the bytes.
use funai_sdk.Prelude.{◌≡◌, refl, some, ◌∷◌, arith, replicate, drop}
use funai_sdk.Js.Text.{JsString}
use funai_sdk.Js.Result.{ok, ◌>>=◌}
use funai_sdk.Bytes.Hex.{Bytes}
use funai_sdk.Stacking.Codec.{Codec}
use funai_sdk.Stacking.Base58.{
  base58_check_decode, base58_check_encode, base58_encode, same_checksum, byte_or_zero,
}
use funai_sdk.Stacking.Address.{
  p2sh, decode_btc_address_bytes, decode_by_prefix, as_invalid_address, has_b58_prefix,
  btc_address_version_to_legacy_hash_mode, pox_address_to_tuple,
  extract_pox_address_from_clarity_value, version_number, p2shp2wsh, mainnet, network_p2sh,
}
use funai_sdk.Stacking.Tuple.{
  base58_check_decode-base58_check_encode,
  extract_pox_address_from_clarity_value-pox_address_to_tuple,
}
use funai_sdk.Stacking.Bitcoin.{
  pox_address_to_btc_address_values, legacy_hash_mode_to_btc_address_version,
}
use funai_sdk.Stacking.Legacy.{read_as, decode_btc_address_bytes-pox_address_to_btc_address_values}
use funai_sdk.Tests.SignData.{sample_crypto}
use funai_sdk.Tests.Structured.{sample_crypto-Sha256Laws}

abbrev sample_codec : Codec
sample_codec = record {
  base58_decode = λ text. ok (drop 1 text);
  base58_encode = λ bs. b'1' ∷ bs;
  bech32_decode = λ text. ok (drop 4 text);
  bech32_encode = λ prefix words. ok words;
  bech32m_decode = λ text. ok (drop 4 text);
  bech32m_encode = λ prefix words. ok words;
  from_words = λ words. ok words;
  to_words = λ bs. bs;
}

abbrev hash : Bytes
hash = replicate 20 9

abbrev pox_address : JsString
pox_address = base58_check_encode sample_codec sample_crypto 5 hash

base58_check_decode-base58_check_encode_example :
    base58_check_decode sample_codec sample_crypto pox_address ≡ ok (5, hash)
base58_check_decode-base58_check_encode_example =
    base58_check_decode-base58_check_encode sample_codec sample_crypto sample_crypto-Sha256Laws
      (λ bs h. refl) 5 hash (omega arith) (omega arith) refl

pox_address_lem : decode_btc_address_bytes sample_codec sample_crypto pox_address ≡ ok (p2sh, hash)
unfolding decode_btc_address_bytes decode_by_prefix as_invalid_address has_b58_prefix
    base58_check_decode base58_check_encode base58_encode same_checksum byte_or_zero
    btc_address_version_to_legacy_hash_mode
pox_address_lem = refl

extract_pox_address_from_clarity_value-pox_address_to_tuple_example :
    (pox_address_to_tuple sample_codec sample_crypto pox_address
      >>= extract_pox_address_from_clarity_value)
    ≡ ok (some 1, hash)
unfolding version_number
extract_pox_address_from_clarity_value-pox_address_to_tuple_example =
    extract_pox_address_from_clarity_value-pox_address_to_tuple sample_codec sample_crypto
      pox_address p2sh hash pox_address_lem (omega arith) (omega arith)

decode_btc_address_bytes-pox_address_to_btc_address_values_example :
    (pox_address_to_btc_address_values sample_codec sample_crypto (some 3) hash mainnet
      >>= decode_btc_address_bytes sample_codec sample_crypto)
    ≡ ok (p2sh, hash)
unfolding version_number read_as
decode_btc_address_bytes-pox_address_to_btc_address_values_example =
    decode_btc_address_bytes-pox_address_to_btc_address_values sample_codec sample_crypto
      sample_crypto-Sha256Laws (λ bs h. refl) hash (omega arith) refl p2shp2wsh mainnet 5
      (unfold legacy_hash_mode_to_btc_address_version network_p2sh in refl)
      (unfold has_b58_prefix base58_check_encode base58_encode in refl)
