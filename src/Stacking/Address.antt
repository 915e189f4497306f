-- ===== src/Stacking/Address.antt =====
-- packages/stacking/src/utils.ts and constants.ts: Bitcoin addresses and reward addresses.
use funai_sdk.Prelude.{
  ℕ, Bool, true, false, ◌&&◌, ◌||◌, Option, none, some, List, [], ◌∷◌, ◌+◌, ◌==◌, leb,
  if◌then◌else◌, length, drop,
}
use funai_sdk.Prelude.Int.{pos}
use funai_sdk.Js.Text.{JsString, js}
use funai_sdk.Js.Result.{
  Result, ok, err, out_of_fuel, ◌>>=◌, ◌>>◌, guard, invalid_pox_address_version,
  invalid_witness_version, unknown_prefix, invalid_address, not_a_pox_tuple,
}
use funai_sdk.Bytes.Hex.{Bytes, bytes_to_hex, hex_to_bytes}
use funai_sdk.Bytes.Ints.{big_int_to_bytes}
use funai_sdk.Clarity.Types.{ClarityValue, buffer, tuple}
use funai_sdk.Clarity.Create.{buffer_cv, tuple_cv}
use funai_sdk.Signing.Crypto.{Crypto}
use funai_sdk.Signing.Structured.{entry_at}
use funai_sdk.Stacking.Codec.{Codec}
use funai_sdk.Stacking.Base58.{base58_check_decode}

pub data PoxAddressVersion : Type 0 where
  p2pkh p2sh p2shp2wpkh p2shp2wsh p2wpkh p2wsh p2tr : PoxAddressVersion

unfoldable pub version_number : PoxAddressVersion → ℕ
version_number p2pkh = 0x00
version_number p2sh = 0x01
version_number p2shp2wpkh = 0x02
version_number p2shp2wsh = 0x03
version_number p2wpkh = 0x04
version_number p2wsh = 0x05
version_number p2tr = 0x06

pub data NetworkName : Type 0 where
  mainnet testnet devnet mocknet : NetworkName

-- `BitcoinNetworkVersion[network].P2PKH` and `.P2SH`
unfoldable pub network_p2pkh : NetworkName → ℕ
network_p2pkh mainnet = 0x00
network_p2pkh testnet = 0x6f
network_p2pkh devnet = 0x6f
network_p2pkh mocknet = 0x6f

unfoldable pub network_p2sh : NetworkName → ℕ
network_p2sh mainnet = 0x05
network_p2sh testnet = 0xc4
network_p2sh devnet = 0xc4
network_p2sh mocknet = 0xc4

unfoldable pub segwit_prefix : NetworkName → JsString
segwit_prefix mainnet = js "bc"
segwit_prefix testnet = js "tb"
segwit_prefix devnet = js "bcrt"
segwit_prefix mocknet = js "bcrt"

-- `/^(1|3|m|n|2)/`
unfoldable pub has_b58_prefix : JsString → Bool
has_b58_prefix [] = false
has_b58_prefix (c ∷ cs) = c == b'1' || c == b'3' || c == b'm' || c == b'n' || c == b'2'

unfoldable pub lower : ℕ → ℕ
lower c = if leb b'A' c && leb c b'Z' then c + 32 else c

-- `/^prefix/i`, of a prefix without capitals.
unfoldable pub starts_with : JsString → JsString → Bool
starts_with [] text = true
starts_with (p ∷ ps) [] = false
starts_with (p ∷ ps) (c ∷ cs) = p == lower c && starts_with ps cs

unfoldable pub has_segwit_prefix : JsString → Bool
has_segwit_prefix text = starts_with (js "bc") text || starts_with (js "tb") text

unfoldable pub has_segwit_v0_prefix : JsString → Bool
has_segwit_v0_prefix text =
    starts_with (js "bc1q") text || starts_with (js "tb1q") text || starts_with (js "bcrt1q") text

unfoldable pub has_segwit_v1_prefix : JsString → Bool
has_segwit_v1_prefix text =
    starts_with (js "bc1p") text || starts_with (js "tb1p") text || starts_with (js "bcrt1p") text

unfoldable pub btc_address_version_to_legacy_hash_mode : ℕ → Result PoxAddressVersion
btc_address_version_to_legacy_hash_mode version =
    if version == 0x00 || version == 0x6f
    then ok p2pkh
    else if version == 0x05 || version == 0xc4
    then ok p2sh
    else err invalid_pox_address_version

unfoldable pub native_address_to_segwit_version : Option ℕ → ℕ → Result PoxAddressVersion
native_address_to_segwit_version none data_length = err invalid_witness_version
native_address_to_segwit_version (some witness_version) data_length =
    if witness_version == 0 && data_length == 20
    then ok p2wpkh
    else if witness_version == 0 && data_length == 32
    then ok p2wsh
    else if witness_version == 1 && data_length == 32
    then ok p2tr
    else err invalid_witness_version

-- `words[0]`
unfoldable pub first_word : List ℕ → Option ℕ
first_word [] = none
first_word (w ∷ ws) = some w

-- `witnessVersion > 0` and `witnessVersion == 0`, which `undefined` is not.
unfoldable pub word_at_most_zero : Option ℕ → Bool
word_at_most_zero none = true
word_at_most_zero (some w) = w == 0

unfoldable pub word_not_zero : Option ℕ → Bool
word_not_zero none = true
word_not_zero (some w) = leb 1 w

unfoldable pub bech32_decode : Codec → JsString → Result (Option ℕ × Bytes)
bech32_decode codec btc_address = do
  words ← codec.bech32_decode btc_address
  guard (word_at_most_zero (first_word words)) invalid_witness_version
  data' ← codec.from_words (drop 1 words)
  ok (first_word words, data')

unfoldable pub bech32m_decode : Codec → JsString → Result (Option ℕ × Bytes)
bech32m_decode codec btc_address = do
  words ← codec.bech32m_decode btc_address
  guard (word_not_zero (first_word words)) invalid_witness_version
  data' ← codec.from_words (drop 1 words)
  ok (first_word words, data')

unfoldable pub decode_native_segwit_btc_address : Codec → JsString → Result (Option ℕ × Bytes)
decode_native_segwit_btc_address codec btc_address =
    if has_segwit_v0_prefix btc_address
    then bech32_decode codec btc_address
    else if has_segwit_v1_prefix btc_address
    then bech32m_decode codec btc_address
    else err unknown_prefix

-- `catch (error) { throw new InvalidAddressError(…) }`
unfoldable pub as_invalid_address : {A : Type 0} → Result A → Result A
as_invalid_address (ok a) = ok a
as_invalid_address (err e) = err invalid_address
as_invalid_address out_of_fuel = out_of_fuel

unfoldable pub decode_by_prefix : Codec → Crypto → JsString → Result (PoxAddressVersion × Bytes)
decode_by_prefix codec crypto btc_address =
    if has_b58_prefix btc_address
    then (do
      (version, hash) ← base58_check_decode codec crypto btc_address
      address_version ← btc_address_version_to_legacy_hash_mode version
      ok (address_version, hash))
    else if has_segwit_prefix btc_address
    then (do
      (witness_version, data') ← decode_native_segwit_btc_address codec btc_address
      address_version ← native_address_to_segwit_version witness_version (length data')
      ok (address_version, data'))
    else err unknown_prefix

unfoldable pub decode_btc_address_bytes :
    Codec → Crypto → JsString → Result (PoxAddressVersion × Bytes)
decode_btc_address_bytes codec crypto btc_address =
    as_invalid_address (decode_by_prefix codec crypto btc_address)

unfoldable pub decode_btc_address :
    Codec → Crypto → JsString → Result (PoxAddressVersion × JsString)
decode_btc_address codec crypto btc_address = do
  (version, data') ← decode_btc_address_bytes codec crypto btc_address
  ok (version, bytes_to_hex data')

unfoldable pub pox_address_to_tuple : Codec → Crypto → JsString → Result ClarityValue
pox_address_to_tuple codec crypto pox_address = do
  (version, data') ← decode_btc_address_bytes codec crypto pox_address
  version_bytes ← big_int_to_bytes (pos (version_number version)) 1
  version_buff ← buffer_cv version_bytes
  hash_buff ← buffer_cv data'
  tuple_cv ((js "version", version_buff) ∷ (js "hashbytes", hash_buff) ∷ [])

-- The text of a buffer, of an entry that has to be there.
unfoldable pub buffer_text : Option ClarityValue → Result JsString
buffer_text (some (buffer text)) = ok text
buffer_text _ = err not_a_pox_tuple

unfoldable pub extract_pox_address_from_clarity_value : ClarityValue → Result (Option ℕ × Bytes)
extract_pox_address_from_clarity_value (tuple data') = do
  version_text ← buffer_text (entry_at (js "version") data')
  hash_text ← buffer_text (entry_at (js "hashbytes") data')
  version_bytes ← hex_to_bytes version_text
  hash_bytes ← hex_to_bytes hash_text
  ok (first_word version_bytes, hash_bytes)
extract_pox_address_from_clarity_value _ = err not_a_pox_tuple
