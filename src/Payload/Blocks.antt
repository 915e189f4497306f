-- ===== src/Payload/Blocks.antt =====
-- The payloads of miners: what is written reads back.
use funai_sdk.Prelude.{ℕ, ◌<◌, ◌^◌, ◌≡◌, refl, Option, some, none, [], ◌∷◌, ◌++◌, All-append, arith}
use funai_sdk.Prelude.Int.{pos}
use funai_sdk.Js.Number.{int}
use funai_sdk.Js.Result.{unknown_tenure_cause}
use funai_sdk.Bytes.Hex.{Bytes, IsByte, concat_array, part_bytes, octets_to_bytes}
use funai_sdk.Bytes.Buffer.{write_uint32_be}
use funai_sdk.Bytes.Words.{write_uint32_be-IsByte}
use funai_sdk.Platform.{Platform, PlatformLaws}
use funai_sdk.Reader.{read_bytes}
use funai_sdk.Reader.Reads.{
  Reads, Reads-bind, Reads-lift, Reads-pure, read_bytes-Reads, read_uint32-Reads,
  read_uint8_enum-Reads,
}
use funai_sdk.Reader.RoundTrips.{RoundTrips}
use funai_sdk.Wire.HexText.{hex-Reads, hex-writes}
use funai_sdk.Clarity.Types.{ClarityValue, optional_none, optional_some}
use funai_sdk.Clarity.Serialize.{serialize_cv_bytes}
use funai_sdk.Clarity.Deserialize.{deserialize_cv}
use funai_sdk.Clarity.Valid.{IsValid, canonical}
use funai_sdk.Clarity.RoundTrip.{deserialize_cv-RoundTrips}
use funai_sdk.Payload.Types.{
  TenureChange, TenureChangeCause, block_found, extended, coinbase, coinbase_to_alt_recipient,
  nakamoto_coinbase, tenure_change, poison_microblock, payload_type, tenure_change_cause,
  cause_byte,
}
use funai_sdk.Payload.Create.{
  create_coinbase_payload, create_nakamoto_coinbase_payload, some_recipient,
}
use funai_sdk.Payload.Write.{serialize_payload_bytes, recipient_cv, write_uint32_number}
use funai_sdk.Payload.Read.{deserialize_payload_of}
use funai_sdk.Payload.Valid.{
  IsArray, IsRecipient, IsTenureChange, canonical_payload, canonical_recipient,
}
use funai_sdk.Payload.Arguments.{payload-Reads}
use funai_sdk.Payload.Transfers.{PayloadRoundTrips}

tenure_change_cause-byte : (c : TenureChangeCause) → tenure_change_cause (cause_byte c) ≡ some c
unfolding tenure_change_cause cause_byte
tenure_change_cause-byte block_found = refl
tenure_change_cause-byte extended = refl

cause_byte-IsByte : (c : TenureChangeCause) → cause_byte c < 256
unfolding cause_byte
cause_byte-IsByte block_found = omega arith
cause_byte-IsByte extended = omega arith

array-Reads : (size : ℕ) (bs : Bytes) → IsArray size bs → Reads (read_bytes (int (pos size))) bs bs
array-Reads size bs h = rw h.1 at (read_bytes-Reads bs)

module _ (env : Platform) (laws : PlatformLaws env) where
  pub poison-RoundTrips : PayloadRoundTrips env poison_microblock
  unfolding serialize_payload_bytes concat_array part_bytes octets_to_bytes deserialize_payload_of
      canonical_payload payload_type
  poison-RoundTrips = record {
    wire = 3 ∷ [];
    writes = refl;
    are_bytes = (omega arith, tt);
    reads = payload-Reads env 3 _ _ _ refl (Reads-pure _);
  }

  pub coinbase-RoundTrips : (bs : Bytes) → IsArray 32 bs → PayloadRoundTrips env (coinbase bs)
  unfolding serialize_payload_bytes concat_array part_bytes octets_to_bytes deserialize_payload_of
      canonical_payload payload_type create_coinbase_payload
  coinbase-RoundTrips bs h = record {
    wire = 4 ∷ (bs ++ []);
    writes = refl;
    are_bytes = (omega arith, All-append IsByte bs [] h.0 tt);
    reads =
        payload-Reads env 4 _ _ _ refl (Reads-bind _ (array-Reads 32 bs h) (Reads-lift (rw (h.1))));
  }

  pub coinbase_to_alt_recipient-RoundTrips :
      (bs : Bytes) (recipient : ClarityValue)
      → IsArray 32 bs
      → IsValid env recipient
      → PayloadRoundTrips env (coinbase_to_alt_recipient bs recipient)
  unfolding serialize_payload_bytes concat_array part_bytes octets_to_bytes deserialize_payload_of
      canonical_payload payload_type create_coinbase_payload
  coinbase_to_alt_recipient-RoundTrips bs recipient h hr =
      let r = deserialize_cv-RoundTrips env laws recipient hr in
      record {
        wire = 5 ∷ (bs ++ (r.wire ++ []));
        writes = rw r.writes;
        are_bytes =
            (omega arith, All-append IsByte bs _ h.0 (All-append IsByte _ _ r.are_bytes tt));
        reads =
            payload-Reads env 5 _ _ _ refl
              (Reads-bind _ (array-Reads 32 bs h) (Reads-bind _ r.reads (Reads-lift (rw (h.1)))));
      }

  -- A recipient travels as an optional value.
  recipient-RoundTrips :
      (r : Option ClarityValue)
      → IsRecipient env r
      → RoundTrips
          (serialize_cv_bytes env (recipient_cv r))
          (deserialize_cv env)
          (canonical env (recipient_cv r))
  unfolding recipient_cv
  recipient-RoundTrips none h = deserialize_cv-RoundTrips env laws optional_none tt
  recipient-RoundTrips (some v) h = deserialize_cv-RoundTrips env laws (optional_some v) h

  some_recipient-canonical :
      (r : Option ClarityValue)
      → some_recipient (canonical env (recipient_cv r)) ≡ canonical_recipient env r
  unfolding some_recipient canonical recipient_cv canonical_recipient
  some_recipient-canonical none = refl
  some_recipient-canonical (some v) = refl

  pub nakamoto_coinbase-RoundTrips :
      (bs : Bytes) (recipient : Option ClarityValue) (vrf_proof : Bytes)
      → IsArray 32 bs
      → IsRecipient env recipient
      → IsArray 80 vrf_proof
      → PayloadRoundTrips env (nakamoto_coinbase bs recipient vrf_proof)
  unfolding serialize_payload_bytes concat_array part_bytes octets_to_bytes deserialize_payload_of
      canonical_payload payload_type create_nakamoto_coinbase_payload
  nakamoto_coinbase-RoundTrips bs recipient vrf_proof h hr hv =
      let r = recipient-RoundTrips recipient hr in
      record {
        wire = 8 ∷ (bs ++ (r.wire ++ (vrf_proof ++ [])));
        writes = rw r.writes;
        are_bytes = (
          omega arith,
          All-append IsByte bs _ h.0
              (All-append IsByte _ _ r.are_bytes (All-append IsByte vrf_proof [] hv.0 tt)),
        );
        reads = payload-Reads env 8 _ _ _ refl (
            Reads-bind _ (array-Reads 32 bs h) (
              Reads-bind _ r.reads (
                Reads-bind _ (array-Reads 80 vrf_proof hv)
                  (Reads-lift (rw (h.1, hv.1, some_recipient-canonical recipient))))));
      }

  pub tenure_change-RoundTrips :
      (p : TenureChange) (n : ℕ)
      → p.previous_tenure_blocks ≡ int (pos n)
      → n < 2 ^ 32
      → IsTenureChange p
      → PayloadRoundTrips env (tenure_change p)
  unfolding serialize_payload_bytes concat_array part_bytes octets_to_bytes deserialize_payload_of
      canonical_payload payload_type write_uint32_number
  tenure_change-RoundTrips p n same small h =
      let t = h.tenure_hash in
      let q = h.previous_tenure_hash in
      let b = h.burn_view_hash in
      let e = h.previous_tenure_end in
      let k = h.public_key_hash in
      record {
        wire =
            7
            ∷ (t.data_bytes
                ++ (q.data_bytes
                    ++ (b.data_bytes
                        ++ (e.data_bytes
                            ++ (write_uint32_be n
                                ++ (cause_byte p.cause ∷ (k.data_bytes ++ [])))))));
        writes = rw (hex-writes t, hex-writes q, hex-writes b, hex-writes e, hex-writes k, same);
        are_bytes = (
          omega arith,
          All-append IsByte _ _ t.are_bytes (
              All-append IsByte _ _ q.are_bytes (
                All-append IsByte _ _ b.are_bytes (
                  All-append IsByte _ _ e.are_bytes (
                    All-append IsByte _ _ (write_uint32_be-IsByte n)
                      (cause_byte-IsByte p.cause, All-append IsByte _ _ k.are_bytes tt))))),
        );
        reads = payload-Reads env 7 _ _ _ refl (
            Reads-bind _ (hex-Reads 20 _ t) (
              Reads-bind _ (hex-Reads 20 _ q) (
                Reads-bind _ (hex-Reads 20 _ b) (
                  Reads-bind _ (hex-Reads 32 _ e) (
                    Reads-bind _ (read_uint32-Reads n small) (
                      Reads-bind _
                        (read_uint8_enum-Reads tenure_change_cause unknown_tenure_cause _ p.cause
                          (tenure_change_cause-byte p.cause))
                        (Reads-bind _ (hex-Reads 20 _ k) (
                          rw
                            (
                              ← t.text_is,
                              ← q.text_is,
                              ← b.text_is,
                              ← e.text_is,
                              ← k.text_is,
                              ← same,
                            )
                            (Reads-pure (tenure_change p))))))))));
      }
