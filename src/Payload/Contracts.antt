-- ===== src/Payload/Contracts.antt =====
-- Contract calls and deployments: what is written reads back.
use funai_sdk.Prelude.{◌<◌, ◌≡◌, refl, some, [], ◌∷◌, ◌++◌, All-append, arith}
use funai_sdk.Js.Result.{ok}
use funai_sdk.Bytes.Hex.{IsByte, concat_array, part_bytes, octets_to_bytes}
use funai_sdk.Bytes.Buffer.{write_uint32_be}
use funai_sdk.Bytes.Words.{write_uint32_be-IsByte}
use funai_sdk.Platform.{Platform, PlatformLaws}
use funai_sdk.Reader.Reads.{
  Reads-bind, Reads-last, Reads-lift, read_uint32-Reads, read_uint8_enum-Reads,
}
use funai_sdk.Reader.RoundTrips.{RoundTrips}
use funai_sdk.Wire.Types.{LengthPrefixedStringWire}
use funai_sdk.Wire.Strings.{lp_string-RoundTrips}
use funai_sdk.Wire.RoundTrip.{IsName, address-RoundTrips, name-RoundTrips}
use funai_sdk.Wire.Read.{deserialize_lp_string}
use funai_sdk.Wire.Write.{serialize_lp_string_bytes}
use funai_sdk.Clarity.Types.{count_values}
use funai_sdk.Clarity.Deserialize.{rounds}
use funai_sdk.Payload.Types.{
  ContractCall, ClarityVersion, clarity1, clarity2, clarity3, contract_call, smart_contract,
  versioned_smart_contract, payload_type, clarity_version, clarity_version_byte,
}
use funai_sdk.Payload.Create.{
  to_lp_string, to_address, to_code_body, create_contract_call_payload,
  create_smart_contract_payload,
}
use funai_sdk.Payload.Write.{serialize_payload_bytes}
use funai_sdk.Payload.Read.{deserialize_payload_of}
use funai_sdk.Payload.Valid.{IsContractCall, IsCodeBody, canonical_payload}
use funai_sdk.Payload.Arguments.{arguments-RoundTrip, payload-Reads}
use funai_sdk.Payload.Transfers.{PayloadRoundTrips}

clarity_version-byte : (v : ClarityVersion) → clarity_version (clarity_version_byte v) ≡ some v
unfolding clarity_version clarity_version_byte
clarity_version-byte clarity1 = refl
clarity_version-byte clarity2 = refl
clarity_version-byte clarity3 = refl

clarity_version_byte-octet :
    (v : ClarityVersion)
    → (octets_to_bytes (clarity_version_byte v) ≡ ok (clarity_version_byte v ∷ []))
      × (clarity_version_byte v < 256)
unfolding octets_to_bytes clarity_version_byte
clarity_version_byte-octet clarity1 = (refl, omega arith)
clarity_version_byte-octet clarity2 = (refl, omega arith)
clarity_version_byte-octet clarity3 = (refl, omega arith)

module _ (env : Platform) (laws : PlatformLaws env) where
  code_body-RoundTrips :
      (lps : LengthPrefixedStringWire)
      → IsCodeBody env lps
      → RoundTrips
          (serialize_lp_string_bytes env lps)
          (deserialize_lp_string env (some 4) (some 100_000))
          lps
  code_body-RoundTrips lps h = lp_string-RoundTrips env laws 3 99_999 lps (omega arith) h

  pub contract_call-RoundTrips :
      (p : ContractCall) → IsContractCall env p → PayloadRoundTrips env (contract_call p)
  unfolding serialize_payload_bytes concat_array part_bytes octets_to_bytes deserialize_payload_of
      canonical_payload payload_type to_address to_lp_string create_contract_call_payload rounds
  contract_call-RoundTrips p h =
      let a = address-RoundTrips p.contract_address h.contract_address in
      let c = name-RoundTrips env laws p.contract_name h.contract_name in
      let f = name-RoundTrips env laws p.function_name h.function_name in
      let n = count_values p.function_args in
      let args = arguments-RoundTrip env laws p.function_args h.function_args in
      record {
        wire = 2 ∷ (a.wire ++ (c.wire ++ (f.wire ++ (write_uint32_be n ++ args.wire))));
        writes = rw (a.writes, c.writes, f.writes, args.writes) (rw args.joins);
        are_bytes = (
          omega arith,
          All-append IsByte _ _ a.are_bytes (
              All-append IsByte _ _ c.are_bytes (
                All-append IsByte _ _ f.are_bytes
                  (All-append IsByte _ _ (write_uint32_be-IsByte n) args.are_bytes))),
        );
        reads = payload-Reads env 2 _ _ _ refl (
            Reads-bind _ a.reads (
              Reads-bind _ c.reads (
                Reads-bind _ f.reads (
                  Reads-bind _ (read_uint32-Reads n h.few_args)
                    (Reads-last _ args.reads (Reads-lift refl))))));
      }

  pub smart_contract-RoundTrips :
      (contract_name code_body : LengthPrefixedStringWire)
      → IsName env contract_name
      → IsCodeBody env code_body
      → PayloadRoundTrips env (smart_contract contract_name code_body)
  unfolding serialize_payload_bytes concat_array part_bytes octets_to_bytes deserialize_payload_of
      canonical_payload payload_type to_lp_string to_code_body create_smart_contract_payload
  smart_contract-RoundTrips contract_name code_body hn hc =
      let n = name-RoundTrips env laws contract_name hn in
      let c = code_body-RoundTrips code_body hc in
      record {
        wire = 1 ∷ (n.wire ++ (c.wire ++ []));
        writes = rw (n.writes, c.writes);
        are_bytes =
            (omega arith, All-append IsByte _ _ n.are_bytes (All-append IsByte _ _ c.are_bytes tt));
        reads =
            payload-Reads env 1 _ _ _ refl
              (Reads-bind _ n.reads (Reads-bind _ c.reads (Reads-lift refl)));
      }

  pub versioned_smart_contract-RoundTrips :
      (version : ClarityVersion) (contract_name code_body : LengthPrefixedStringWire)
      → IsName env contract_name
      → IsCodeBody env code_body
      → PayloadRoundTrips env (versioned_smart_contract version contract_name code_body)
  unfolding serialize_payload_bytes concat_array part_bytes deserialize_payload_of canonical_payload
      payload_type to_lp_string to_code_body create_smart_contract_payload
  versioned_smart_contract-RoundTrips version contract_name code_body hn hc =
      let n = name-RoundTrips env laws contract_name hn in
      let c = code_body-RoundTrips code_body hc in
      let (writes, small) = clarity_version_byte-octet version in
      record {
        wire = 6 ∷ (clarity_version_byte version ∷ (n.wire ++ (c.wire ++ [])));
        writes = rw (n.writes, c.writes, writes) (unfold octets_to_bytes in refl);
        are_bytes = (
          omega arith,
          (small, All-append IsByte _ _ n.are_bytes (All-append IsByte _ _ c.are_bytes tt)),
        );
        reads = payload-Reads env 6 _ _ _ refl (
            Reads-bind _
              (read_uint8_enum-Reads clarity_version _ _ version (clarity_version-byte version))
              (Reads-bind _ n.reads (Reads-bind _ c.reads (Reads-lift refl))));
      }
