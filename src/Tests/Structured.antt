-- ===== src/Tests/Structured.antt =====
-- A message and a domain, encoded and signed.
use funai_sdk.Prelude.{◌≡◌, refl, ◌∷◌, [], ◌++◌, true, arith, replicate}
use funai_sdk.Prelude.Int.{pos}
use funai_sdk.Js.Text.{js, pad_start, str_eq}
use funai_sdk.Js.Number.{
  to_string16, big_digits, hex_digits, to_digit, parse_int16, parse_signed, signed, parse_unsigned,
  parse_digits, digits_prefix, digit_value, strip_radix, trim_start, is_white,
}
use funai_sdk.Bytes.Buffer.{write_uint32_be}
use funai_sdk.Bytes.Ints.{big_int_to_bytes, int_to_hex, int_to_bytes}
use funai_sdk.Clarity.Entries.{sort_keys, insert_sorted}
use funai_sdk.Wire.Write.{serialize_lp_string_bytes}
use funai_sdk.Wire.Create.{create_lp_string, exceeds_max_length_bytes}
use funai_sdk.Js.Result.{ok, ◌>>=◌}
use funai_sdk.Bytes.Hex.{
  Bytes, bytes_to_hex, concat_array, part_bytes, octets_to_bytes, hex_to_bytes, hex_pairs, pad_even,
  without0x, has_0x, drop_two, check_byte, hex_to_int, hexes,
}
use funai_sdk.Clarity.Types.{ClarityValue, bool_true, unsigned, string_ascii, tuple, empty, entry}
use funai_sdk.Clarity.Serialize.{
  serialize_cv_bytes, serialize_entries, serialize_sorted, serialize_string, ascii_to_bytes,
  bytes_with_type_id,
}
use funai_sdk.Platform.Sample.{sample_platform}
use funai_sdk.Auth.Types.{uncompressed}
use funai_sdk.Signing.Keys.{
  PrivateKey, key_text, private_key_to_bytes, key_data, ends_in_one, is_compressed_encoding,
  public_key_from_signature_rsv,
}
use funai_sdk.Signing.Structured.{
  encode_structured_data_bytes, decode_structured_data_signature_bytes, sign_structured_data,
  is_domain, structured_data_prefix, hash_structured_data_bytes, entry_at, is_ascii_entry,
  is_uint_entry,
}
use funai_sdk.Signing.StructuredLaws.{
  Sha256Laws, encode_structured_data_bytes-decodes,
  public_key_from_signature_rsv-sign_structured_data,
}
use funai_sdk.Tests.SignData.{sample_crypto, sample_crypto-CryptoLaws}
use funai_sdk.Tests.SignTransactions.{secret, secret_text}

abbrev message : ClarityValue
message = bool_true

abbrev domain : ClarityValue
domain = tuple (
    entry (js "name") (string_ascii (js "app")) (
      entry (js "version") (string_ascii (js "2"))
        (entry (js "chain-id") (unsigned (pos 1)) empty)))

abbrev domain_bytes : Bytes
domain_bytes =
    0x0c
    ∷ 0
    ∷ 0
    ∷ 0
    ∷ 3
    ∷ ((8 ∷ js "chain-id")
        ++ (0x01 ∷ replicate 15 0)
        ++ (1 ∷ [])
        ++ (4 ∷ js "name")
        ++ (0x0d ∷ 0 ∷ 0 ∷ 0 ∷ 3 ∷ js "app")
        ++ (7 ∷ js "version")
        ++ (0x0d ∷ 0 ∷ 0 ∷ 0 ∷ 1 ∷ js "2"))

serialize_cv_bytes-domain : serialize_cv_bytes sample_platform domain ≡ ok domain_bytes
unfolding serialize_cv_bytes serialize_entries serialize_sorted serialize_string ascii_to_bytes
    bytes_with_type_id sort_keys insert_sorted create_lp_string serialize_lp_string_bytes
    exceeds_max_length_bytes concat_array part_bytes octets_to_bytes write_uint32_be
    big_int_to_bytes to_string16 big_digits hex_digits to_digit pad_start hex_to_bytes hex_pairs
    pad_even without0x has_0x drop_two check_byte hex_to_int parse_int16 parse_signed signed
    parse_unsigned parse_digits digits_prefix digit_value strip_radix trim_start is_white str_eq
    int_to_hex bytes_to_hex hexes int_to_bytes
serialize_cv_bytes-domain = refl

is_domain-domain : is_domain domain ≡ true
unfolding is_domain entry_at is_ascii_entry is_uint_entry str_eq
is_domain-domain = refl

pub sample_crypto-Sha256Laws : Sha256Laws sample_crypto
sample_crypto-Sha256Laws = record { sha256-IsByte = λ bs. omega arith; length-sha256 = λ bs. refl }

encode_structured_data_bytes-decodes_example :
    (do
      encoded ← encode_structured_data_bytes sample_platform sample_crypto message domain
      ok (decode_structured_data_signature_bytes encoded))
    ≡ ok (sample_crypto.sha256 domain_bytes, sample_crypto.sha256 (3 ∷ []))
encode_structured_data_bytes-decodes_example =
    encode_structured_data_bytes-decodes sample_platform sample_crypto sample_crypto-Sha256Laws
      message domain (3 ∷ []) domain_bytes (unfold serialize_cv_bytes in refl)
      serialize_cv_bytes-domain is_domain-domain

abbrev encoded : Bytes
encoded =
    structured_data_prefix ++ (sample_crypto.sha256 domain_bytes ++ sample_crypto.sha256 (3 ∷ []))

encoded_lem : encode_structured_data_bytes sample_platform sample_crypto message domain ≡ ok encoded
unfolding encode_structured_data_bytes hash_structured_data_bytes
encoded_lem = rw (is_domain-domain, serialize_cv_bytes-domain) (unfold serialize_cv_bytes in refl)

-- A text with `0x` in front, and the uncompressed form of its public key.
abbrev key : PrivateKey
key = key_text (b'0' ∷ b'x' ∷ secret_text 5)

abbrev long_key : Bytes
long_key = 4 ∷ replicate 64 5

key-reads : private_key_to_bytes key ≡ ok (secret 5)
unfolding private_key_to_bytes key_data ends_in_one hex_to_bytes hex_pairs pad_even without0x has_0x
    drop_two check_byte parse_int16 parse_signed signed parse_unsigned parse_digits digits_prefix
    digit_value strip_radix trim_start is_white bytes_to_hex hexes to_string16 big_digits hex_digits
    to_digit pad_start
key-reads = refl

public_key_from_signature_rsv-sign_structured_data_example :
    (do
      signature ← sign_structured_data sample_platform sample_crypto message domain key
      public_key_from_signature_rsv sample_crypto
          (bytes_to_hex (sample_crypto.sha256 encoded))
          signature
          uncompressed)
    ≡ ok (bytes_to_hex long_key)
public_key_from_signature_rsv-sign_structured_data_example =
    public_key_from_signature_rsv-sign_structured_data sample_platform sample_crypto
      sample_crypto-Sha256Laws sample_crypto-CryptoLaws message domain encoded key (secret 5)
      long_key uncompressed encoded_lem key-reads (unfold is_compressed_encoding in refl)
