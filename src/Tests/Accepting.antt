-- ===== src/Tests/Accepting.antt =====
-- A multi-signature condition that is accepted.
use funai_sdk.Prelude.{◌≡◌, refl, [], ◌∷◌, ◌++◌, replicate}
use funai_sdk.Prelude.Int.{pos}
use funai_sdk.Js.Text.{JsString, str_eq}
use funai_sdk.Js.Number.{
  int, to_string16, hex_digits, to_digit, big_int16, big_digits, digit_value, number_eq, add_number,
  ltb_number, parse_int16, parse_signed, signed, parse_unsigned, parse_digits, digits_prefix,
  strip_radix, trim_start, is_white,
}
use funai_sdk.Js.Result.{ok}
use funai_sdk.Bytes.Hex.{
  bytes_to_hex, hexes, hex_to_bytes, hex_pairs, pad_even, without0x, has_0x, drop_two, check_byte,
  hex_to_int, concat_array, part_bytes, octets_to_bytes,
}
use funai_sdk.Bytes.Ints.{int_to_bytes, big_int_to_bytes, int_to_hex}
use funai_sdk.Auth.Types.{
  compressed, p2sh, signature, public_key, MultiSig, standard_type, encoding_byte,
  public_key_is_compressed, starts_with_04,
}
use funai_sdk.Auth.Fields.{prepend_octet, number_octet}
use funai_sdk.Auth.Spending.{is_segwit, is_uncompressed}
use funai_sdk.Signing.Hashes.{
  address_from_public_keys, keys_hash, is_single_mode, is_segwit_mode, hash_p2sh, multisig_script,
  script_tail, hash160, txid_from_data, every_compressed,
}
use funai_sdk.Signing.Keys.{
  create_funai_public_key, public_key_from_signature_vrs, parse_recoverable_signature_vrs,
  is_compressed_encoding,
}
use funai_sdk.Signing.SigHash.{
  next_verification, sig_hash_pre_sign, sig_hash_post_sign, auth_type_byte, left_pad_hex,
  encoding_of,
}
use funai_sdk.Signing.Verify.{
  verify_multi_sig, verify_fields, verify_contents, finish_verifying, wrong_count,
  is_sequential_multi_sig, is_non_sequential_multi_sig, check_signer,
}
use funai_sdk.Signing.Accepted.{Accepted, verify_multi_sig-Accepted}
use funai_sdk.Tests.SignData.{sample_crypto}
use funai_sdk.Tests.SignTransactions.{public_of}

abbrev first : JsString
first = bytes_to_hex (replicate 32 7)

abbrev last : JsString
last = bytes_to_hex (98 ∷ replicate 31 7)

-- One of two keys has signed.
abbrev one_of_two : MultiSig
one_of_two = record {
  hash_mode = p2sh;
  signer = bytes_to_hex (32 ∷ replicate 19 7);
  nonce = pos 9;
  fee = pos 9;
  fields =
      record {
        pub_key_encoding = compressed;
        contents = signature (bytes_to_hex (1 ∷ (replicate 32 5 ++ replicate 32 9)));
      }
      ∷ record { pub_key_encoding = compressed; contents = public_key (public_of 8) }
      ∷ [];
  signatures_required = int (pos 1);
}

one_of_two-verifies : verify_multi_sig sample_crypto one_of_two first standard_type ≡ ok last
unfolding verify_multi_sig verify_fields verify_contents finish_verifying wrong_count
    is_sequential_multi_sig is_non_sequential_multi_sig check_signer next_verification
    sig_hash_pre_sign sig_hash_post_sign auth_type_byte left_pad_hex encoding_of
    create_funai_public_key public_key_from_signature_vrs parse_recoverable_signature_vrs
    is_compressed_encoding address_from_public_keys keys_hash is_single_mode is_segwit_mode
    hash_p2sh multisig_script script_tail hash160 txid_from_data every_compressed is_segwit
    is_uncompressed prepend_octet number_octet public_key_is_compressed starts_with_04 encoding_byte
    int_to_bytes big_int_to_bytes int_to_hex bytes_to_hex hexes hex_to_bytes hex_pairs pad_even
    without0x has_0x drop_two check_byte hex_to_int concat_array part_bytes octets_to_bytes str_eq
    to_string16 hex_digits to_digit big_int16 big_digits digit_value number_eq add_number ltb_number
    parse_int16 parse_signed signed parse_unsigned parse_digits digits_prefix strip_radix trim_start
    is_white
one_of_two-verifies = refl

verify_multi_sig-Accepted_example : Accepted sample_crypto one_of_two first last standard_type
verify_multi_sig-Accepted_example =
    verify_multi_sig-Accepted sample_crypto one_of_two first last standard_type one_of_two-verifies
