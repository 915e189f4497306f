-- ===== src/Tests/Calls.antt =====
-- The calls of a signer, and a source that ends too soon.
use funai_sdk.Prelude.{◌≡◌, refl, [], ◌∷◌, ◌++◌, replicate}
use funai_sdk.Prelude.Int.{pos, negsuc}
use funai_sdk.Js.Text.{JsString, str_eq}
use funai_sdk.Js.Number.{
  int, to_string16, hex_digits, to_digit, big_int16, big_digits, digit_value, number_eq, add_number,
  ltb_number, parse_int16, parse_signed, signed, parse_unsigned, parse_digits, digits_prefix,
  strip_radix, trim_start, is_white,
}
use funai_sdk.Js.Result.{ok}
use funai_sdk.Bytes.Hex.{
  bytes_to_hex, hexes, hex_to_bytes, hex_pairs, pad_even, without0x, has_0x, drop_two, check_byte,
  hex_to_int, concat_array, part_bytes, octets_to_bytes,
}
use funai_sdk.Bytes.Ints.{int_to_bytes, big_int_to_bytes, int_to_hex}
use funai_sdk.Auth.Types.{
  compressed, public_key, MultiSig, encoding_byte, public_key_is_compressed, starts_with_04,
}
use funai_sdk.Auth.Fields.{prepend_octet, number_octet}
use funai_sdk.Auth.Spending.{is_segwit, is_uncompressed}
use funai_sdk.Signing.Hashes.{
  address_from_public_keys, keys_hash, is_single_mode, is_segwit_mode, hash_p2sh, multisig_script,
  script_tail, hash160, txid_from_data, every_compressed,
}
use funai_sdk.Signing.Keys.{
  create_funai_public_key, public_key_from_signature_vrs, parse_recoverable_signature_vrs,
  is_compressed_encoding,
}
use funai_sdk.Signing.SigHash.{
  next_verification, sig_hash_pre_sign, sig_hash_post_sign, auth_type_byte, left_pad_hex,
  encoding_of,
}
use funai_sdk.Signing.Verify.{
  verify_multi_sig, verify_fields, verify_contents, finish_verifying, wrong_count,
  is_sequential_multi_sig, is_non_sequential_multi_sig, check_signer,
}
use funai_sdk.Tests.SignData.{sample_crypto}
use funai_sdk.Tests.SignTransactions.{public_of}
use funai_sdk.Prelude.{◌≢◌, true, false, arith}
use funai_sdk.Js.Number.{nan, geb_number, Number}
use funai_sdk.Js.Result.{err, out_of_fuel, origin_after_sponsor}
use funai_sdk.Platform.Sample.{sample_platform}
use funai_sdk.Reader.{BytesReader, new_reader}
use funai_sdk.Clarity.Deserialize.{deserialize_cv}
use funai_sdk.Clarity.Terminates.{C32Ends, deserialize_cv-ends}
use funai_sdk.Auth.Types.{SingleSig, single, multi, sponsored_auth}
use funai_sdk.Auth.Fields.{create_message_signature}
use funai_sdk.Transaction.Types.{FunaiTransactionWire}
use funai_sdk.Signing.Keys.{
  key_text, key_data, ends_in_one, private_key_to_bytes, private_key_is_compressed,
  private_key_to_public, sign_with_key, recovery_hex,
}
use funai_sdk.Signing.SigHash.{next_signature}
use funai_sdk.Signing.Begin.{start_signer}
use funai_sdk.Signing.Transaction.{
  append_signature, sign_and_append, sign_sponsor_of, sign_next_sponsor, append_key, append_pubkey,
  check_sponsored,
}
use funai_sdk.Signing.Signer.{
  TransactionSigner, new_signer, replay_condition, replay_fields, has_all_signatures, signatures_of,
  sign_origin, append_origin, sign_sponsor,
}
use funai_sdk.Signing.Steps.{stay, sign_sponsor-closes}
use funai_sdk.Signing.Bounded.{starts, origin_appended, signatures_of-Reachable}
use funai_sdk.Tests.AuthData.{sample_curve, sample_transaction, origin_condition}
use funai_sdk.Tests.SignTransactions.{
  secret_text, one_key, two_of_three, tx_with, two_of_three_hash, two_of_three-begins,
}

-- A list of five values that ends behind the first.
abbrev cut_list : BytesReader
cut_list = new_reader (0x0b ∷ 0 ∷ 0 ∷ 0 ∷ 5 ∷ 3 ∷ [])

c32_ends_lem :
    (version : Number) (hash160 : JsString)
    → sample_platform.c32_address version hash160 ≢ out_of_fuel
c32_ends_lem nan hash160 h = cc
c32_ends_lem (int (pos n)) hash160 h = cc
c32_ends_lem (int (negsuc n)) hash160 h = cc

sample_platform-C32Ends : C32Ends sample_platform
sample_platform-C32Ends = record { c32_ends = c32_ends_lem }

deserialize_cv-ends_example : deserialize_cv sample_platform cut_list ≢ out_of_fuel
deserialize_cv-ends_example =
    deserialize_cv-ends sample_platform sample_platform-C32Ends cut_list
      (record { are_bytes = omega arith; counts = tt })

abbrev sponsored_by : SingleSig → FunaiTransactionWire
sponsored_by sponsor = record sample_transaction {
  auth = sponsored_auth (multi origin_condition) (single sponsor);
}

abbrev first : JsString
first = bytes_to_hex (replicate 32 7)

abbrev signed_by_sponsor : TransactionSigner
signed_by_sponsor = record {
  transaction =
      sponsored_by
        (record one_key { signature_text = bytes_to_hex (1 ∷ (replicate 32 5 ++ replicate 32 9)) });
  sig_hash = bytes_to_hex (98 ∷ replicate 31 7);
  origin_done = true;
  check_oversign = true;
  check_overlap = true;
}

sponsor_signs_lem :
    sign_sponsor sample_crypto
      (start_signer (sponsored_by one_key) first)
      (key_text (secret_text 5))
    ≡ ok signed_by_sponsor
unfolding sign_sponsor sign_next_sponsor sign_sponsor_of check_sponsored sign_and_append
    append_signature create_message_signature next_signature sign_with_key recovery_hex
    private_key_to_public private_key_to_bytes key_data ends_in_one private_key_is_compressed
    verify_multi_sig verify_fields verify_contents finish_verifying wrong_count
    is_sequential_multi_sig is_non_sequential_multi_sig check_signer next_verification
    sig_hash_pre_sign sig_hash_post_sign auth_type_byte left_pad_hex encoding_of
    create_funai_public_key public_key_from_signature_vrs parse_recoverable_signature_vrs
    is_compressed_encoding address_from_public_keys keys_hash is_single_mode is_segwit_mode
    hash_p2sh multisig_script script_tail hash160 txid_from_data every_compressed is_segwit
    is_uncompressed prepend_octet number_octet public_key_is_compressed starts_with_04 encoding_byte
    int_to_bytes big_int_to_bytes int_to_hex bytes_to_hex hexes hex_to_bytes hex_pairs pad_even
    without0x has_0x drop_two check_byte hex_to_int concat_array part_bytes octets_to_bytes str_eq
    to_string16 hex_digits to_digit big_int16 big_digits digit_value number_eq add_number ltb_number
    parse_int16 parse_signed signed parse_unsigned parse_digits digits_prefix strip_radix trim_start
    is_white
sponsor_signs_lem = refl

sign_sponsor-closes_example :
    (sign_origin sample_crypto signed_by_sponsor (key_text (secret_text 6))
      ≡ err origin_after_sponsor)
    × (append_origin signed_by_sponsor (public_of 8) ≡ err origin_after_sponsor)
sign_sponsor-closes_example =
    sign_sponsor-closes sample_platform sample_curve sample_crypto
      (start_signer (sponsored_by one_key) first) signed_by_sponsor signed_by_sponsor
      (key_text (secret_text 5)) (key_text (secret_text 6)) (public_of 8) refl sponsor_signs_lem
      stay

abbrev with_key : MultiSig
with_key = record two_of_three {
  fields = record { pub_key_encoding = compressed; contents = public_key (public_of 8) } ∷ [];
}

two_of_three-starts :
    new_signer sample_platform sample_curve sample_crypto (tx_with (multi two_of_three))
    ≡ ok (start_signer (tx_with (multi two_of_three)) two_of_three_hash)
unfolding new_signer replay_condition replay_fields has_all_signatures signatures_of geb_number
two_of_three-starts = rw two_of_three-begins refl

key_appended :
    append_origin (start_signer (tx_with (multi two_of_three)) two_of_three_hash) (public_of 8)
    ≡ ok (start_signer (tx_with (multi with_key)) two_of_three_hash)
unfolding append_origin append_pubkey append_key encoding_of public_key_is_compressed starts_with_04
    bytes_to_hex hexes
key_appended = refl

signatures_of-Reachable_example :
    ltb_number with_key.signatures_required (int (pos (signatures_of with_key.fields))) ≡ false
signatures_of-Reachable_example =
    signatures_of-Reachable sample_platform sample_curve sample_crypto
      (start_signer (tx_with (multi with_key)) two_of_three_hash) with_key
      (origin_appended (public_of 8) (starts (tx_with (multi two_of_three)) two_of_three-starts)
        key_appended)
      refl (unfold is_sequential_multi_sig in refl)
