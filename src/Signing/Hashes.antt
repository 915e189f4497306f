-- ===== src/Signing/Hashes.antt =====
-- packages/transactions/src/utils.ts and wire/helpers.ts: the hashes that stand for keys.
use funai_sdk.Prelude.{
  ◌+◌, ◌%◌, Bool, true, false, ◌&&◌, ◌||◌, not, List, [], ◌∷◌, ◌==◌, ltb, ◌⊎◌, inl, inr, length,
}
use funai_sdk.Prelude.Int.{pos}
use funai_sdk.Js.Text.{JsString}
use funai_sdk.Js.Number.{Number, int, add_number, ltb_number, number_eq}
use funai_sdk.Js.Result.{
  Result, ok, err, guard, ◌>>=◌, ◌>>◌, no_public_keys, wrong_key_count, segwit_uncompressed,
  too_many_keys,
}
use funai_sdk.Bytes.Hex.{Bytes, Part, octet, bytes, bytes_to_hex, concat_array}
use funai_sdk.Wire.Types.{AddressWire}
use funai_sdk.Auth.Types.{
  SingleSigHashMode, p2pkh, p2wpkh, MultiSigHashMode, p2sh, p2wsh, p2sh_non_sequential,
  p2wsh_non_sequential, public_key_is_compressed,
}
use funai_sdk.Auth.Fields.{prepend_octet}
use funai_sdk.Auth.Spending.{is_segwit}
use funai_sdk.Signing.Crypto.{Crypto}

-- The members of `AddressHashMode`.
abbrev pub AddressHashMode : Type 0
AddressHashMode = SingleSigHashMode ⊎ MultiSigHashMode

unfoldable pub hash160 : Crypto → Bytes → Bytes
hash160 crypto input = crypto.ripemd160 (crypto.sha256 input)

unfoldable pub txid_from_data : Crypto → Bytes → JsString
txid_from_data crypto data_bytes = bytes_to_hex (crypto.sha512_256 data_bytes)

unfoldable pub hash_p2pkh : Crypto → Bytes → JsString
hash_p2pkh crypto input = bytes_to_hex (hash160 crypto input)

-- A witness program: the version 0, then the hash behind its length.
unfoldable pub witness_program : Bytes → Bytes
witness_program key_hash = 0 ∷ (length key_hash % 256) ∷ key_hash

unfoldable pub hash_p2wpkh : Crypto → Bytes → JsString
hash_p2wpkh crypto input = bytes_to_hex (hash160 crypto (witness_program (hash160 crypto input)))

-- Public keys, each behind its length, and what ends the script.
unfoldable pub script_tail : List Bytes → List Bytes → List Part
script_tail all_keys [] = octet (80 + length all_keys) ∷ octet 174 ∷ []
script_tail all_keys (key ∷ keys) = octet (length key) ∷ bytes key ∷ script_tail all_keys keys

-- OP_n, the keys, OP_m, OP_CHECKMULTISIG.
unfoldable pub multisig_script : Number → List Bytes → Result Bytes
multisig_script num_sigs pub_keys = do
  guard (not (ltb_number (int (pos 15)) num_sigs || ltb 15 (length pub_keys))) too_many_keys
  rest ← concat_array (script_tail pub_keys pub_keys)
  prepend_octet (add_number (int (pos 80)) num_sigs) rest

unfoldable pub hash_p2sh : Crypto → Number → List Bytes → Result JsString
hash_p2sh crypto num_sigs pub_keys = do
  redeem_script ← multisig_script num_sigs pub_keys
  ok (bytes_to_hex (hash160 crypto redeem_script))

unfoldable pub hash_p2wsh : Crypto → Number → List Bytes → Result JsString
hash_p2wsh crypto num_sigs pub_keys = do
  script ← multisig_script num_sigs pub_keys
  redeem_script ←
      concat_array
        (octet 0 ∷ octet (length (crypto.sha256 script)) ∷ bytes (crypto.sha256 script) ∷ [])
  ok (bytes_to_hex (hash160 crypto redeem_script))

unfoldable pub every_compressed : List Bytes → Bool
every_compressed [] = true
every_compressed (key ∷ keys) = public_key_is_compressed key && every_compressed keys

unfoldable pub is_segwit_mode : AddressHashMode → Bool
is_segwit_mode (inl p2pkh) = false
is_segwit_mode (inl p2wpkh) = true
is_segwit_mode (inr mode) = is_segwit mode

unfoldable pub is_single_mode : AddressHashMode → Bool
is_single_mode (inl mode) = true
is_single_mode (inr mode) = false

-- The hash for a key, which stands first in a list.
unfoldable pub single_key_hash : Crypto → SingleSigHashMode → List Bytes → Result JsString
single_key_hash crypto mode [] = err no_public_keys
single_key_hash crypto p2pkh (key ∷ keys) = ok (hash_p2pkh crypto key)
single_key_hash crypto p2wpkh (key ∷ keys) = ok (hash_p2wpkh crypto key)

unfoldable pub keys_hash : Crypto → AddressHashMode → Number → List Bytes → Result JsString
keys_hash crypto (inl mode) num_sigs public_keys = single_key_hash crypto mode public_keys
keys_hash crypto (inr p2sh) num_sigs public_keys = hash_p2sh crypto num_sigs public_keys
keys_hash crypto (inr p2sh_non_sequential) num_sigs public_keys =
    hash_p2sh crypto num_sigs public_keys
keys_hash crypto (inr p2wsh) num_sigs public_keys = hash_p2wsh crypto num_sigs public_keys
keys_hash crypto (inr p2wsh_non_sequential) num_sigs public_keys =
    hash_p2wsh crypto num_sigs public_keys

abbrev pub address_from_version_hash : Number → JsString → AddressWire
address_from_version_hash version hash = record { version = version; hash160 = hash }

unfoldable pub address_from_public_keys :
    Crypto → Number → AddressHashMode → Number → List Bytes → Result AddressWire
address_from_public_keys crypto version hash_mode num_sigs public_keys = do
  guard (not (length public_keys == 0)) no_public_keys
  guard
      (not (
        is_single_mode hash_mode
        && not (length public_keys == 1 && number_eq num_sigs (int (pos 1)))))
      wrong_key_count
  guard (not (is_segwit_mode hash_mode && not (every_compressed public_keys))) segwit_uncompressed
  hash ← keys_hash crypto hash_mode num_sigs public_keys
  ok (address_from_version_hash version hash)
