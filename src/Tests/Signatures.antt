-- ===== src/Tests/Signatures.antt =====
-- The theorems on signatures at concrete inputs.
use funai_sdk.Prelude.{List, ◌≡◌, ◌≢◌, refl, none, [], ◌∷◌, map, arith}
use funai_sdk.Prelude.Int.{pos}
use funai_sdk.Js.Text.{JsString, str_eq}
use funai_sdk.Js.Number.{int}
use funai_sdk.Js.Result.{ok}
use funai_sdk.Bytes.Hex.{bytes_to_hex}
use funai_sdk.Bytes.HexLaws.{hex_to_bytes-bytes_to_hex}
use funai_sdk.Platform.Sample.{sample_platform}
use funai_sdk.Auth.Types.{p2pkh, p2sh, single, multi, starts_with_04}
use funai_sdk.Bytes.Hex.{hexes, concat_array, part_bytes, octets_to_bytes}
use funai_sdk.Js.Number.{number_eq, add_number, ltb_number}
use funai_sdk.Auth.Fields.{prepend_octet, number_octet}
use funai_sdk.Auth.Spending.{is_segwit}
use funai_sdk.Signing.Hashes.{
  address_from_public_keys, keys_hash, single_key_hash, is_single_mode, is_segwit_mode, hash_p2sh,
  multisig_script, script_tail, hash160,
}
use funai_sdk.Signing.SigHash.{encoding_of}
use funai_sdk.Signing.Keys.{
  private_key_to_public, private_key_to_bytes, key_data, ends_in_one, private_key_is_compressed,
  key_text, create_funai_public_key,
}
use funai_sdk.Signing.Begin.{start_signer}
use funai_sdk.Signing.Conditions.{
  create_single_sig_spending_condition, create_multi_sig_spending_condition,
  create_funai_public_keys,
}
use funai_sdk.Signing.Signer.{new_signer, replay_condition, create_sponsor_signer}
use funai_sdk.Signing.SingleSig.{SignerVerifies, sign_origin-verify_origin}
use funai_sdk.Signing.Finding.{signer_count, has_signer}
use funai_sdk.Signing.Append.{find_signer, mutating_sign_append_multi_sig}
use funai_sdk.Signing.MultiSig.{MultiSigned, mutating_sign_append_multi_sig-verify_origin}
use funai_sdk.Signing.Sponsor.{create_sponsor_signer-multi}
use funai_sdk.Tests.AuthData.{sample_curve, origin_condition, sponsor_condition, sample_transaction}
use funai_sdk.Tests.SignData.{sample_crypto, sample_crypto-CryptoLaws}
use funai_sdk.Tests.SignTransactions.{
  secret, secret_text, public_of, five-IsKeyPair, six-IsKeyPair, nine-IsUint64, one_key, three_keys,
  two_of_three, tx_with, one_key_hash, one_key-begins, two_of_three_hash, two_of_three-begins,
}

one_key-created :
    create_single_sig_spending_condition sample_crypto p2pkh
      (bytes_to_hex (public_of 5))
      (pos 9)
      (pos 9)
    ≡ ok (single one_key)
unfolding create_single_sig_spending_condition create_funai_public_key address_from_public_keys
    keys_hash single_key_hash is_single_mode is_segwit_mode number_eq encoding_of starts_with_04
    bytes_to_hex hexes
one_key-created = let read = hex_to_bytes-bytes_to_hex (public_of 5) (omega arith) in rw read refl

three_keys-created :
    create_multi_sig_spending_condition sample_crypto p2sh
      (int (pos 2))
      (map bytes_to_hex three_keys)
      (pos 9)
      (pos 9)
    ≡ ok (multi two_of_three)
unfolding create_multi_sig_spending_condition create_funai_public_keys create_funai_public_key
    address_from_public_keys keys_hash hash_p2sh multisig_script script_tail concat_array part_bytes
    octets_to_bytes prepend_octet number_octet add_number ltb_number is_single_mode is_segwit_mode
    is_segwit hash160
three_keys-created =
    let five = hex_to_bytes-bytes_to_hex (public_of 5) (omega arith) in
    let eight = hex_to_bytes-bytes_to_hex (public_of 8) (omega arith) in
    let six = hex_to_bytes-bytes_to_hex (public_of 6) (omega arith) in rw (five, eight, six) refl

one_key-starts :
    new_signer sample_platform sample_curve sample_crypto (tx_with (single one_key))
    ≡ ok (start_signer (tx_with (single one_key)) one_key_hash)
unfolding new_signer replay_condition
one_key-starts = rw one_key-begins refl

sign_origin-verify_origin_example :
    SignerVerifies sample_platform sample_curve sample_crypto
      (start_signer (tx_with (single one_key)) one_key_hash)
      (key_text (secret_text 5))
sign_origin-verify_origin_example =
    sign_origin-verify_origin sample_platform sample_curve sample_crypto sample_crypto-CryptoLaws
      (tx_with (single one_key)) (start_signer (tx_with (single one_key)) one_key_hash) p2pkh
      (key_text (secret_text 5)) (public_of 5) (pos 9) (pos 9) five-IsKeyPair nine-IsUint64
      nine-IsUint64 one_key-created one_key-starts

abbrev signer_keys : List JsString
signer_keys = secret_text 5 ∷ secret_text 6 ∷ []

two_signers : signer_count sample_crypto signer_keys three_keys ≡ 2
unfolding signer_count find_signer has_signer private_key_to_public private_key_to_bytes key_data
    ends_in_one private_key_is_compressed bytes_to_hex hexes str_eq
two_signers =
    let five = hex_to_bytes-bytes_to_hex (secret 5) (omega arith) in
    let six = hex_to_bytes-bytes_to_hex (secret 6) (omega arith) in rw (five, six) refl

mutating_sign_append_multi_sig-verify_origin_example :
    MultiSigned sample_platform sample_curve sample_crypto (
      mutating_sign_append_multi_sig sample_platform sample_curve sample_crypto
        (tx_with (multi two_of_three))
        (map bytes_to_hex three_keys)
        signer_keys
        none)
mutating_sign_append_multi_sig-verify_origin_example =
    mutating_sign_append_multi_sig-verify_origin sample_platform sample_curve sample_crypto
      sample_crypto-CryptoLaws (tx_with (multi two_of_three)) two_of_three_hash p2sh 2 three_keys
      signer_keys (pos 9) (pos 9) (omega arith) (omega arith)
      (
        record { public_key = public_of 5; pair = five-IsKeyPair },
        (record { public_key = public_of 6; pair = six-IsKeyPair }, tt),
      )
      (omega arith) two_signers nine-IsUint64 nine-IsUint64 three_keys-created two_of_three-begins

create_sponsor_signer-multi_example :
    create_sponsor_signer sample_platform sample_curve sample_crypto sample_transaction
      (single sponsor_condition)
    ≢ ok (start_signer sample_transaction one_key_hash)
create_sponsor_signer-multi_example =
    create_sponsor_signer-multi sample_platform sample_curve sample_crypto sample_transaction
      origin_condition (single sponsor_condition) (start_signer sample_transaction one_key_hash)
      refl
