-- ===== src/Auth/FieldLaws.antt =====
-- The fields of multi-signature conditions: what is written reads back.
use funai_sdk.Prelude.{
  ℕ, ◌<◌, ◌^◌, ◌≡◌, refl, true, false, ◌==◌, some, List, [], ◌∷◌, ◌++◌, length, All, All-append,
  arith, le→leb,
}
use funai_sdk.Prelude.Int.{pos}
use funai_sdk.Js.Text.{JsString}
use funai_sdk.Js.Number.{int}
use funai_sdk.Js.Result.{ok, unknown_auth_field}
use funai_sdk.Bytes.Hex.{
  Bytes, IsByte, Part, bytes, bytes_to_hex, concat_array, part_bytes, octets_to_bytes,
}
use funai_sdk.Bytes.HexLaws.{hex_to_bytes-bytes_to_hex}
use funai_sdk.Bytes.IntLaws.{be_bytes, be_bytes-IsByte, length-be_bytes, hex_to_bytes-int_to_hex}
use funai_sdk.Bytes.ParseLaws.{hex_to_int-be_bytes}
use funai_sdk.Reader.Reads.{
  Reads, Reads-bind, Reads-last, Reads-then, Reads-lift, Reads-pure, read_bytes-Reads,
  read_number8-Reads, read_uint8_enum-Reads,
}
use funai_sdk.Reader.RoundTrips.{RoundTrips}
use funai_sdk.Wire.HexText.{IsHex, hex-Reads, hex-writes}
use funai_sdk.Clarity.Deserialize.{rounds}
use funai_sdk.Auth.Types.{
  Curve, PubKeyEncoding, compressed, uncompressed, AuthFieldType, FieldContents, public_key,
  signature, TransactionAuthField, auth_field_type, signature_compressed, signature_uncompressed,
}
use funai_sdk.Auth.Fields.{
  create_message_signature, deserialize_message_signature, number_octet, prepend_octet, key_length,
  deserialize_public_key, compress_public_key, uncompress_public_key, key_type_byte,
  signature_type_byte, serialize_contents, serialize_auth_field_bytes,
  create_transaction_auth_field, deserialize_auth_field_of, deserialize_auth_field,
  serialize_fields, serialize_field_list, read_fields, deserialize_field_list,
}

-- The form of a compressed key: 33 bytes, the first of them not a 4.
pub record IsShortKey (key : Bytes) : Type 0 where
  pub first : ℕ
  pub rest : Bytes
  pub key_is : key ≡ first ∷ rest
  pub first_byte : first < 256
  pub not_four : (first == 4) ≡ false
  pub rest_bytes : All IsByte rest
  pub size_is : length rest ≡ 32

module _ (curve : Curve) where
  -- A compressed key is its own compressed form.
  pub record IsCompressedKey (key : Bytes) : Type 0 where
    pub short : IsShortKey key
    pub same : curve.point_hex true (bytes_to_hex key) ≡ ok (bytes_to_hex key)

  -- An uncompressed key is what its compressed form stands for.
  pub record IsUncompressedKey (key : Bytes) : Type 0 where
    pub are_bytes : All IsByte key
    pub short_key : Bytes
    pub short : IsShortKey short_key
    pub compresses : curve.point_hex true (bytes_to_hex key) ≡ ok (bytes_to_hex short_key)
    pub uncompresses : curve.point_hex false (bytes_to_hex short_key) ≡ ok (bytes_to_hex key)

abbrev pub IsContents : Curve → PubKeyEncoding → FieldContents → Type 0
IsContents curve compressed (public_key key) = IsCompressedKey curve key
IsContents curve uncompressed (public_key key) = IsUncompressedKey curve key
IsContents curve encoding (signature text) = IsHex 65 text

abbrev pub IsField : Curve → TransactionAuthField → Type 0
IsField curve field = IsContents curve field.pub_key_encoding field.contents

short_bytes : (key : Bytes) → IsShortKey key → All IsByte key
short_bytes key h =
    let whole : All IsByte (h.first ∷ h.rest) = (h.first_byte, h.rest_bytes) in rw (h.key_is) whole

prepend_octet-byte :
    (n : ℕ) (rest : Bytes) → n < 256 → prepend_octet (int (pos n)) rest ≡ ok (n ∷ rest)
unfolding prepend_octet number_octet octets_to_bytes
prepend_octet-byte n rest h = rw (le→leb n 255 (omega arith))

public_key-Reads : (key : Bytes) → IsShortKey key → Reads deserialize_public_key key key
unfolding deserialize_public_key
public_key-Reads key h =
    let size : key_length (int (pos h.first)) ≡ 32 = unfold key_length in rw (h.not_four) in
    rw (h.key_is) (
      Reads-bind _ (read_number8-Reads h.first) (
        rw size (
          Reads-last _ (rw (h.size_is) at (read_bytes-Reads h.rest))
            (Reads-lift (prepend_octet-byte h.first h.rest h.first_byte)))))

pub signature-Reads :
    (text : JsString) (h : IsHex 65 text) → Reads deserialize_message_signature h.data_bytes text
unfolding deserialize_message_signature create_message_signature
signature-Reads text h =
    Reads-last _ (hex-Reads 65 text h)
      (rw (← h.text_is) (Reads-lift (rw (hex-writes h) (rw (h.size_is)))))

field-Reads :
    (curve : Curve) (n : ℕ) (t : AuthFieldType) (body : Bytes) (field : TransactionAuthField)
    → auth_field_type n ≡ some t
    → Reads (deserialize_auth_field_of curve t) body field
    → Reads (deserialize_auth_field curve) (n ∷ body) field
unfolding deserialize_auth_field
field-Reads curve n t body field member h =
    Reads-bind _ (read_uint8_enum-Reads auth_field_type unknown_auth_field n t member) h

contents-RoundTrips :
    (curve : Curve) (encoding : PubKeyEncoding) (contents : FieldContents)
    → IsContents curve encoding contents
    → RoundTrips
        (serialize_contents curve encoding contents)
        (deserialize_auth_field curve)
        (create_transaction_auth_field encoding contents)
unfolding serialize_contents concat_array part_bytes octets_to_bytes compress_public_key
    uncompress_public_key key_type_byte signature_type_byte auth_field_type
    deserialize_auth_field_of
contents-RoundTrips curve compressed (public_key key) h = record {
  wire = 0 ∷ (key ++ []);
  writes = rw (h.same) (rw (hex_to_bytes-bytes_to_hex key (short_bytes key h.short)));
  are_bytes = (omega arith, All-append IsByte key [] (short_bytes key h.short) tt);
  reads =
      field-Reads curve 0 _ _ _ refl (Reads-bind _ (public_key-Reads key h.short) (Reads-pure _));
}
contents-RoundTrips curve uncompressed (public_key key) h = record {
  wire = 1 ∷ (h.short_key ++ []);
  writes =
      rw (h.compresses)
        (rw (hex_to_bytes-bytes_to_hex h.short_key (short_bytes h.short_key h.short)));
  are_bytes = (omega arith, All-append IsByte h.short_key [] (short_bytes h.short_key h.short) tt);
  reads = field-Reads curve 1 _ _ _ refl (
      Reads-bind _ (public_key-Reads h.short_key h.short) (
        Reads-then _ (Reads-lift h.uncompresses)
          (Reads-then _ (Reads-lift (hex_to_bytes-bytes_to_hex key h.are_bytes)) (Reads-pure _))));
}
contents-RoundTrips curve compressed (signature text) h = record {
  wire = 2 ∷ (h.data_bytes ++ []);
  writes = rw (hex-writes h);
  are_bytes = (omega arith, All-append IsByte _ [] h.are_bytes tt);
  reads =
      field-Reads curve 2 signature_compressed _ _ refl
        (Reads-bind _ (signature-Reads text h) (Reads-pure _));
}
contents-RoundTrips curve uncompressed (signature text) h = record {
  wire = 3 ∷ (h.data_bytes ++ []);
  writes = rw (hex-writes h);
  are_bytes = (omega arith, All-append IsByte _ [] h.are_bytes tt);
  reads =
      field-Reads curve 3 signature_uncompressed _ _ refl
        (Reads-bind _ (signature-Reads text h) (Reads-pure _));
}

-- For a field of a multi-signature condition, a signature of 65 bytes or a public key whose
-- compressed form the curve gives and, for an uncompressed key, undoes,
-- `serializeTransactionAuthFieldBytes` returns an array of bytes off which
-- `deserializeTransactionAuthField` reads that field and nothing more.
pub field-RoundTrips :
    (curve : Curve) (field : TransactionAuthField)
    → IsField curve field
    → RoundTrips (serialize_auth_field_bytes curve field) (deserialize_auth_field curve) field
unfolding serialize_auth_field_bytes
field-RoundTrips curve field h = contents-RoundTrips curve field.pub_key_encoding field.contents h

record FieldsRoundTrip (curve : Curve) (fields : List TransactionAuthField) : Type 0 where
  parts : List Part
  wire : Bytes
  writes : serialize_fields curve fields ≡ ok parts
  joins : concat_array parts ≡ ok wire
  are_bytes : All IsByte wire
  reads : Reads (read_fields curve (length fields)) wire fields

fields-RoundTrip :
    (curve : Curve) (fields : List TransactionAuthField)
    → All (IsField curve) fields
    → FieldsRoundTrip curve fields
unfolding serialize_fields concat_array part_bytes read_fields
fields-RoundTrip curve [] h = record {
  parts = [];
  wire = [];
  writes = refl;
  joins = refl;
  are_bytes = tt;
  reads = Reads-pure [];
}
fields-RoundTrip curve (field ∷ fields) (hf, hs) =
    let r = field-RoundTrips curve field hf in
    let rs = fields-RoundTrip curve fields hs in
    record {
      parts = bytes r.wire ∷ rs.parts;
      wire = r.wire ++ rs.wire;
      writes = rw r.writes (rw rs.writes);
      joins = rw rs.joins;
      are_bytes = All-append IsByte _ _ r.are_bytes rs.are_bytes;
      reads = Reads-bind _ r.reads (Reads-last _ rs.reads (Reads-pure _));
    }

pub field_list-RoundTrips :
    (curve : Curve) (fields : List TransactionAuthField)
    → All (IsField curve) fields
    → length fields < 2 ^ 32
    → RoundTrips (serialize_field_list curve fields) (deserialize_field_list curve) fields
unfolding serialize_field_list deserialize_field_list concat_array part_bytes
field_list-RoundTrips curve fields h small =
    let n : ℕ = length fields in
    let fits : n < 256 ^ 4 = omega arith in
    let rs = fields-RoundTrip curve fields h in
    let count : rounds (int (pos n)) ≡ n = unfold rounds in refl in
    record {
      wire = be_bytes 4 n ++ rs.wire;
      writes = rw (hex_to_bytes-int_to_hex 4 n (omega arith) fits, rs.writes) (rw rs.joins);
      are_bytes = All-append IsByte (be_bytes 4 n) _ (be_bytes-IsByte 4 n) rs.are_bytes;
      reads =
          Reads-bind _ (rw length-be_bytes at (read_bytes-Reads (be_bytes 4 n)))
            (rw (hex_to_int-be_bytes 4 n (omega arith) fits) (rw count rs.reads));
    }
