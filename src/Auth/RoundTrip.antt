-- ===== src/Auth/RoundTrip.antt =====
-- Spending conditions and authorizations: what is written reads back.
use funai_sdk.Prelude.{◌<◌, ◌≡◌, refl, false, some, inl, inr, [], ◌∷◌, ◌++◌, All-append, arith}
use funai_sdk.Js.Result.{ok, unknown_hash_mode, unknown_key_encoding, unknown_auth_type}
use funai_sdk.Bytes.Hex.{IsByte, concat_array, part_bytes, octets_to_bytes}
use funai_sdk.Bytes.IntLaws.{be_bytes, be_bytes-IsByte, int_to_bytes-be_bytes}
use funai_sdk.Bytes.Buffer.{write_uint16_be}
use funai_sdk.Bytes.Words.{write_uint16_be-IsByte}
use funai_sdk.Reader.Reads.{
  Reads-bind, Reads-then, Reads-lift, Reads-pure, read_uint16-Reads, read_uint8_enum-Reads,
}
use funai_sdk.Reader.RoundTrips.{RoundTrips}
use funai_sdk.Wire.HexText.{hex-Reads, hex-writes}
use funai_sdk.PostCondition.RoundTrip.{amount-Reads}
use funai_sdk.Auth.Types.{
  Curve, PubKeyEncoding, compressed, uncompressed, SingleSigHashMode, p2pkh, p2wpkh,
  MultiSigHashMode, p2sh, p2wsh, p2sh_non_sequential, p2wsh_non_sequential, SingleSig, MultiSig,
  SpendingCondition, single, multi, Authorization, standard_auth, sponsored_auth, encoding_byte,
  pub_key_encoding_of, single_byte, multi_byte, hash_mode_of, auth_type,
}
use funai_sdk.Auth.Spending.{
  serialize_single_sig_bytes, serialize_multi_sig_bytes, serialize_spending_condition_bytes,
  write_uint16_number, deserialize_single_sig, deserialize_multi_sig, deserialize_condition_by,
  deserialize_spending_condition,
}
use funai_sdk.Auth.Authorization.{
  serialize_authorization_bytes, deserialize_authorization_of, deserialize_authorization,
}
use funai_sdk.Auth.FieldLaws.{signature-Reads, field_list-RoundTrips}
use funai_sdk.Auth.Valid.{
  IsSingleSig, IsMultiSig, IsSpendingCondition, IsAuthorization, check_key_encoding-Compatible,
  check_fields-few,
}

encoding-member : (e : PubKeyEncoding) → pub_key_encoding_of (encoding_byte e) ≡ some e
unfolding pub_key_encoding_of encoding_byte
encoding-member compressed = refl
encoding-member uncompressed = refl

encoding-octet :
    (e : PubKeyEncoding)
    → (octets_to_bytes (encoding_byte e) ≡ ok (encoding_byte e ∷ [])) × (encoding_byte e < 256)
unfolding octets_to_bytes encoding_byte
encoding-octet compressed = (refl, omega arith)
encoding-octet uncompressed = (refl, omega arith)

single-member : (m : SingleSigHashMode) → hash_mode_of (single_byte m) ≡ some (inl m)
unfolding hash_mode_of single_byte
single-member p2pkh = refl
single-member p2wpkh = refl

single-octet :
    (m : SingleSigHashMode)
    → (octets_to_bytes (single_byte m) ≡ ok (single_byte m ∷ [])) × (single_byte m < 256)
unfolding octets_to_bytes single_byte
single-octet p2pkh = (refl, omega arith)
single-octet p2wpkh = (refl, omega arith)

multi-member : (m : MultiSigHashMode) → hash_mode_of (multi_byte m) ≡ some (inr m)
unfolding hash_mode_of multi_byte
multi-member p2sh = refl
multi-member p2wsh = refl
multi-member p2sh_non_sequential = refl
multi-member p2wsh_non_sequential = refl

multi-octet :
    (m : MultiSigHashMode)
    → (octets_to_bytes (multi_byte m) ≡ ok (multi_byte m ∷ [])) × (multi_byte m < 256)
unfolding octets_to_bytes multi_byte
multi-octet p2sh = (refl, omega arith)
multi-octet p2wsh = (refl, omega arith)
multi-octet p2sh_non_sequential = (refl, omega arith)
multi-octet p2wsh_non_sequential = (refl, omega arith)

module _ (curve : Curve) where
  single_sig-RoundTrips :
      (c : SingleSig)
      → IsSingleSig c
      → RoundTrips
          (serialize_spending_condition_bytes curve (single c))
          (deserialize_spending_condition curve)
          (single c)
  unfolding serialize_spending_condition_bytes serialize_single_sig_bytes
      deserialize_spending_condition deserialize_condition_by deserialize_single_sig concat_array
      part_bytes
  single_sig-RoundTrips c h =
      let nonce = h.nonce.value in
      let fee = h.fee.value in
      let (mode_writes, mode_small) = single-octet c.hash_mode in
      let (key_writes, key_small) = encoding-octet c.key_encoding in
      record {
        wire =
            single_byte c.hash_mode
            ∷ (h.signer.data_bytes
                ++ (be_bytes 8 nonce
                    ++ (be_bytes 8 fee
                        ++ (encoding_byte c.key_encoding ∷ (h.signed.data_bytes ++ [])))));
        writes =
            rw (hex-writes h.signer, h.nonce.value_is, h.fee.value_is, hex-writes h.signed)
              (rw (
                int_to_bytes-be_bytes 8 nonce (omega arith) (omega (arith, h.nonce.small)),
                int_to_bytes-be_bytes 8 fee (omega arith) (omega (arith, h.fee.small)),
                mode_writes,
                key_writes,
              ));
        are_bytes = (
          mode_small,
          All-append IsByte _ _ h.signer.are_bytes (
              All-append IsByte (be_bytes 8 nonce) _ (be_bytes-IsByte 8 nonce) (
                All-append IsByte (be_bytes 8 fee) _ (be_bytes-IsByte 8 fee)
                  (key_small, All-append IsByte _ [] h.signed.are_bytes tt))),
        );
        reads =
            Reads-bind _
              (read_uint8_enum-Reads hash_mode_of unknown_hash_mode _ _ (single-member c.hash_mode))
              (Reads-bind _ (hex-Reads 20 _ h.signer) (
                Reads-bind _ (amount-Reads nonce h.nonce.small) (
                  Reads-bind _ (amount-Reads fee h.fee.small) (
                    Reads-bind _
                      (read_uint8_enum-Reads pub_key_encoding_of unknown_key_encoding _ _
                        (encoding-member c.key_encoding))
                      (Reads-then _
                        (Reads-lift
                          (check_key_encoding-Compatible c.hash_mode c.key_encoding h.encoding))
                        (Reads-bind _ (signature-Reads _ h.signed) (
                          rw (← h.signer.text_is, ← h.nonce.value_is, ← h.fee.value_is)
                            (Reads-pure (single c)))))))));
      }

  multi_sig-RoundTrips :
      (c : MultiSig)
      → IsMultiSig curve c
      → RoundTrips
          (serialize_spending_condition_bytes curve (multi c))
          (deserialize_spending_condition curve)
          (multi c)
  unfolding serialize_spending_condition_bytes serialize_multi_sig_bytes
      deserialize_spending_condition deserialize_condition_by deserialize_multi_sig concat_array
      part_bytes write_uint16_number
  multi_sig-RoundTrips c h =
      let nonce = h.nonce.value in
      let fee = h.fee.value in
      let (mode_writes, mode_small) = multi-octet c.hash_mode in
      let fields = field_list-RoundTrips curve c.fields h.fields h.few_fields in
      record {
        wire =
            multi_byte c.hash_mode
            ∷ (h.signer.data_bytes
                ++ (be_bytes 8 nonce
                    ++ (be_bytes 8 fee ++ (fields.wire ++ (write_uint16_be h.required ++ [])))));
        writes =
            rw (hex-writes h.signer, h.nonce.value_is, h.fee.value_is, fields.writes, h.required_is)
              (rw (
                int_to_bytes-be_bytes 8 nonce (omega arith) (omega (arith, h.nonce.small)),
                int_to_bytes-be_bytes 8 fee (omega arith) (omega (arith, h.fee.small)),
                mode_writes,
              ));
        are_bytes = (
          mode_small,
          All-append IsByte _ _ h.signer.are_bytes (
              All-append IsByte (be_bytes 8 nonce) _ (be_bytes-IsByte 8 nonce) (
                All-append IsByte (be_bytes 8 fee) _ (be_bytes-IsByte 8 fee) (
                  All-append IsByte _ _ fields.are_bytes
                    (All-append IsByte _ [] (write_uint16_be-IsByte h.required) tt)))),
        );
        reads =
            Reads-bind _
              (read_uint8_enum-Reads hash_mode_of unknown_hash_mode _ _ (multi-member c.hash_mode))
              (Reads-bind _ (hex-Reads 20 _ h.signer) (
                Reads-bind _ (amount-Reads nonce h.nonce.small) (
                  Reads-bind _ (amount-Reads fee h.fee.small) (
                    Reads-bind _ fields.reads (
                      Reads-then _
                        (Reads-lift
                          (check_fields-few c.fields false 0 (omega (arith, h.few_signatures))))
                        (Reads-bind _ (read_uint16-Reads h.required h.required_small) (
                          Reads-then _ (Reads-lift (rw (h.keys_allowed))) (
                            rw
                              (
                                ← h.signer.text_is,
                                ← h.nonce.value_is,
                                ← h.fee.value_is,
                                ← h.required_is,
                              )
                              (Reads-pure (multi c))))))))));
      }

  pub condition-RoundTrips :
      (c : SpendingCondition)
      → IsSpendingCondition curve c
      → RoundTrips
          (serialize_spending_condition_bytes curve c)
          (deserialize_spending_condition curve)
          c
  condition-RoundTrips (single c) h = single_sig-RoundTrips c h
  condition-RoundTrips (multi c) h = multi_sig-RoundTrips c h

  -- For a valid authorization, standard or sponsored, of single-signature or multi-signature
  -- conditions, `serializeAuthorizationBytes` returns an array of bytes off which
  -- `deserializeAuthorization` reads that authorization and nothing more.
  pub authorization-RoundTrips :
      (a : Authorization)
      → IsAuthorization curve a
      → RoundTrips (serialize_authorization_bytes curve a) (deserialize_authorization curve) a
  unfolding serialize_authorization_bytes deserialize_authorization deserialize_authorization_of
      concat_array part_bytes octets_to_bytes auth_type
  authorization-RoundTrips (standard_auth c) h =
      let r = condition-RoundTrips c h in
      record {
        wire = 4 ∷ (r.wire ++ []);
        writes = rw (r.writes);
        are_bytes = (omega arith, All-append IsByte _ [] r.are_bytes tt);
        reads =
            Reads-bind _ (read_uint8_enum-Reads auth_type unknown_auth_type 4 _ refl)
              (Reads-bind _ r.reads (Reads-pure _));
      }
  authorization-RoundTrips (sponsored_auth c s) (hc, hs) =
      let r = condition-RoundTrips c hc in
      let q = condition-RoundTrips s hs in
      record {
        wire = 5 ∷ (r.wire ++ (q.wire ++ []));
        writes = rw (r.writes, q.writes);
        are_bytes = (
          omega arith,
          All-append IsByte _ _ r.are_bytes (All-append IsByte _ [] q.are_bytes tt),
        );
        reads =
            Reads-bind _ (read_uint8_enum-Reads auth_type unknown_auth_type 5 _ refl)
              (Reads-bind _ r.reads (Reads-bind _ q.reads (Reads-pure _)));
      }
