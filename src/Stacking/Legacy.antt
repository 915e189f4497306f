-- ===== src/Stacking/Legacy.antt =====
-- packages/stacking/src/utils.ts: base58 addresses are read as what they were made of.
use funai_sdk.Prelude.{◌≡◌, refl, ℕ, true, some, length, All, arith, ◌<◌}
use funai_sdk.Js.Result.{ok, ◌>>=◌}
use funai_sdk.Js.Inversion.{ok_eq}
use funai_sdk.Bytes.Hex.{Bytes, IsByte}
use funai_sdk.Signing.Crypto.{Crypto}
use funai_sdk.Signing.StructuredLaws.{Sha256Laws}
use funai_sdk.Stacking.Codec.{Codec}
use funai_sdk.Stacking.Base58.{base58_check_encode}
use funai_sdk.Stacking.Address.{
  PoxAddressVersion, p2pkh, p2sh, p2shp2wpkh, p2shp2wsh, p2wpkh, p2wsh, p2tr, version_number,
  NetworkName, mainnet, testnet, devnet, mocknet, network_p2pkh, network_p2sh, has_b58_prefix,
  btc_address_version_to_legacy_hash_mode, as_invalid_address, decode_by_prefix,
  decode_btc_address_bytes,
}
use funai_sdk.Stacking.Bitcoin.{
  legacy_hash_mode_to_btc_address_version, pox_address_version, legacy_address,
  pox_address_of_version, pox_address_to_btc_address_values,
}
use funai_sdk.Stacking.Tuple.{base58_check_decode-base58_check_encode}

-- What a version is read as: nested forms look like `P2SH`.
unfoldable pub read_as : PoxAddressVersion → PoxAddressVersion
read_as p2pkh = p2pkh
read_as p2sh = p2sh
read_as p2shp2wpkh = p2sh
read_as p2shp2wsh = p2sh
read_as p2wpkh = p2wpkh
read_as p2wsh = p2wsh
read_as p2tr = p2tr

record IsNumberOf (kind : PoxAddressVersion) (number : ℕ) : Type 0 where
  reads : btc_address_version_to_legacy_hash_mode number ≡ ok kind
  small : number < 256

network_p2pkh_lem : (network : NetworkName) → IsNumberOf p2pkh (network_p2pkh network)
unfolding btc_address_version_to_legacy_hash_mode network_p2pkh
network_p2pkh_lem mainnet = record { reads = refl; small = omega arith }
network_p2pkh_lem testnet = record { reads = refl; small = omega arith }
network_p2pkh_lem devnet = record { reads = refl; small = omega arith }
network_p2pkh_lem mocknet = record { reads = refl; small = omega arith }

network_p2sh_lem : (network : NetworkName) → IsNumberOf p2sh (network_p2sh network)
unfolding btc_address_version_to_legacy_hash_mode network_p2sh
network_p2sh_lem mainnet = record { reads = refl; small = omega arith }
network_p2sh_lem testnet = record { reads = refl; small = omega arith }
network_p2sh_lem devnet = record { reads = refl; small = omega arith }
network_p2sh_lem mocknet = record { reads = refl; small = omega arith }

module _ (codec : Codec) (crypto : Crypto) (sizes : Sha256Laws crypto)
    (reads : (bs : Bytes) → All IsByte bs → codec.base58_decode (codec.base58_encode bs) ≡ ok bs)
    (hash : Bytes) (hh : All IsByte hash) (len : length hash ≡ 20) where
  decode_legacy :
      (kind : PoxAddressVersion) (number : ℕ)
      → IsNumberOf kind number
      → has_b58_prefix (base58_check_encode codec crypto number hash) ≡ true
      → decode_btc_address_bytes codec crypto (base58_check_encode codec crypto number hash)
        ≡ ok (kind, hash)
  unfolding decode_btc_address_bytes decode_by_prefix as_invalid_address
  decode_legacy kind number is prefix =
      rw
        (
          prefix,
          base58_check_decode-base58_check_encode codec crypto sizes reads number hash is.small hh
              len,
        )
        (rw (is.reads) refl)

  -- For a base58 that decodes what it encodes and a SHA-256 of 32 bytes: let a hash of 20 bytes
  -- have a version that `legacyHashModeToBtcAddressVersion` takes, and let its base58 text begin
  -- as `B58_ADDR_PREFIXES` asks. `decodeBtcAddressBytes` of the address that
  -- `poxAddressToBtcAddress` makes gives back the hash and the version, or P2SH for P2SHP2WPKH and
  -- P2SHP2WSH.
  pub decode_btc_address_bytes-pox_address_to_btc_address_values :
      (version : PoxAddressVersion) (network : NetworkName) (number : ℕ)
      → legacy_hash_mode_to_btc_address_version version network ≡ ok number
      → has_b58_prefix (base58_check_encode codec crypto number hash) ≡ true
      → (pox_address_to_btc_address_values codec crypto (some (version_number version)) hash network
          >>= decode_btc_address_bytes codec crypto)
        ≡ ok (read_as version, hash)
  unfolding pox_address_to_btc_address_values pox_address_of_version pox_address_version
      version_number legacy_address legacy_hash_mode_to_btc_address_version read_as
  decode_btc_address_bytes-pox_address_to_btc_address_values p2pkh network number h prefix =
      decode_legacy p2pkh (network_p2pkh network) (network_p2pkh_lem network) (rw (ok_eq h) prefix)
  decode_btc_address_bytes-pox_address_to_btc_address_values p2sh network number h prefix =
      decode_legacy p2sh (network_p2sh network) (network_p2sh_lem network) (rw (ok_eq h) prefix)
  decode_btc_address_bytes-pox_address_to_btc_address_values p2shp2wpkh network number h prefix =
      decode_legacy p2sh (network_p2sh network) (network_p2sh_lem network) (rw (ok_eq h) prefix)
  decode_btc_address_bytes-pox_address_to_btc_address_values p2shp2wsh network number h prefix =
      decode_legacy p2sh (network_p2sh network) (network_p2sh_lem network) (rw (ok_eq h) prefix)
  decode_btc_address_bytes-pox_address_to_btc_address_values p2wpkh network number h prefix = cc
  decode_btc_address_bytes-pox_address_to_btc_address_values p2wsh network number h prefix = cc
  decode_btc_address_bytes-pox_address_to_btc_address_values p2tr network number h prefix = cc
