-- ===== src/Stacking/Bitcoin.antt =====
-- packages/stacking/src/utils.ts: the Bitcoin address of a reward address. (`Invalid network` is for
-- names that are not of the type.)
use funai_sdk.Prelude.{ℕ, Option, none, some, ◌∷◌, ◌==◌, if◌then◌else◌}
use funai_sdk.Js.Text.{JsString}
use funai_sdk.Js.Result.{Result, ok, err, ◌>>=◌, invalid_pox_address_version}
use funai_sdk.Bytes.Hex.{Bytes}
use funai_sdk.Clarity.Types.{ClarityValue}
use funai_sdk.Signing.Crypto.{Crypto}
use funai_sdk.Stacking.Codec.{Codec}
use funai_sdk.Stacking.Base58.{base58_check_encode}
use funai_sdk.Stacking.Address.{
  PoxAddressVersion, p2pkh, p2sh, p2shp2wpkh, p2shp2wsh, p2wpkh, p2wsh, p2tr, NetworkName,
  network_p2pkh, network_p2sh, segwit_prefix, extract_pox_address_from_clarity_value,
}

unfoldable pub legacy_hash_mode_to_btc_address_version : PoxAddressVersion → NetworkName → Result ℕ
legacy_hash_mode_to_btc_address_version p2pkh network = ok (network_p2pkh network)
legacy_hash_mode_to_btc_address_version p2sh network = ok (network_p2sh network)
legacy_hash_mode_to_btc_address_version p2shp2wpkh network = ok (network_p2sh network)
legacy_hash_mode_to_btc_address_version p2shp2wsh network = ok (network_p2sh network)
legacy_hash_mode_to_btc_address_version _ network = err invalid_pox_address_version

-- The case that a number selects.
unfoldable pub pox_address_version : Option ℕ → Option PoxAddressVersion
pox_address_version none = none
pox_address_version (some version) =
    if version == 0x00
    then some p2pkh
    else if version == 0x01
    then some p2sh
    else if version == 0x02
    then some p2shp2wpkh
    else if version == 0x03
    then some p2shp2wsh
    else if version == 0x04
    then some p2wpkh
    else if version == 0x05
    then some p2wsh
    else if version == 0x06
    then some p2tr
    else none

unfoldable pub legacy_address :
    Codec → Crypto → PoxAddressVersion → Bytes → NetworkName → Result JsString
legacy_address codec crypto version hash network = do
  btc_addr_version ← legacy_hash_mode_to_btc_address_version version network
  ok (base58_check_encode codec crypto btc_addr_version hash)

unfoldable pub pox_address_of_version :
    Codec → Crypto → Option PoxAddressVersion → Bytes → NetworkName → Result JsString
pox_address_of_version codec crypto none hash network = err invalid_pox_address_version
pox_address_of_version codec crypto (some p2wpkh) hash network =
    codec.bech32_encode (segwit_prefix network) (0 ∷ codec.to_words hash)
pox_address_of_version codec crypto (some p2wsh) hash network =
    codec.bech32_encode (segwit_prefix network) (0 ∷ codec.to_words hash)
pox_address_of_version codec crypto (some p2tr) hash network =
    codec.bech32m_encode (segwit_prefix network) (1 ∷ codec.to_words hash)
pox_address_of_version codec crypto (some version) hash network =
    legacy_address codec crypto version hash network

unfoldable pub pox_address_to_btc_address_values :
    Codec → Crypto → Option ℕ → Bytes → NetworkName → Result JsString
pox_address_to_btc_address_values codec crypto version hash network =
    pox_address_of_version codec crypto (pox_address_version version) hash network

unfoldable pub pox_address_to_btc_address :
    Codec → Crypto → ClarityValue → NetworkName → Result JsString
pox_address_to_btc_address codec crypto pox_addr_clarity_value network = do
  (version, hash_bytes) ← extract_pox_address_from_clarity_value pox_addr_clarity_value
  pox_address_to_btc_address_values codec crypto version hash_bytes network
