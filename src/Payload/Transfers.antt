-- ===== src/Payload/Transfers.antt =====
-- Token transfers, inferences and model registrations: what is written reads back.
use funai_sdk.Prelude.{ℕ, ◌<◌, ◌^◌, ◌≡◌, refl, [], ◌∷◌, ◌++◌, All-append, arith}
use funai_sdk.Prelude.Int.{pos}
use funai_sdk.Bytes.Hex.{IsByte, concat_array, part_bytes, octets_to_bytes}
use funai_sdk.Bytes.IntLaws.{be_bytes, be_bytes-IsByte, int_to_bytes-be_bytes}
use funai_sdk.Platform.{Platform, PlatformLaws}
use funai_sdk.Reader.Reads.{Reads-bind, Reads-lift}
use funai_sdk.Reader.RoundTrips.{RoundTrips}
use funai_sdk.Wire.Types.{LengthPrefixedStringWire, MemoStringWire}
use funai_sdk.Wire.RoundTrip.{IsName, name-RoundTrips}
use funai_sdk.Wire.Memo.{IsMemo, memo-RoundTrips}
use funai_sdk.Clarity.Types.{ClarityValue}
use funai_sdk.Clarity.Valid.{IsValid}
use funai_sdk.Clarity.RoundTrip.{deserialize_cv-RoundTrips}
use funai_sdk.PostCondition.RoundTrip.{amount-Reads}
use funai_sdk.Payload.Types.{
  PayloadWire, Infer, token_transfer, infer, register_model, payload_type,
}
use funai_sdk.Payload.Create.{
  to_principal, to_lp_string, to_memo, to_node_principal, to_output_hash,
  create_token_transfer_payload, create_infer_payload, create_register_model_payload,
}
use funai_sdk.Payload.Write.{serialize_payload_bytes}
use funai_sdk.Payload.Read.{deserialize_payload, deserialize_payload_of}
use funai_sdk.Payload.Valid.{IsInfer, canonical_payload}
use funai_sdk.Payload.Arguments.{payload-Reads}

module _ (env : Platform) where
  abbrev pub PayloadRoundTrips : PayloadWire → Type 0
  PayloadRoundTrips p =
      RoundTrips (serialize_payload_bytes env p) (deserialize_payload env) (canonical_payload env p)

module _ (env : Platform) (laws : PlatformLaws env) where
  pub token_transfer-RoundTrips :
      (recipient : ClarityValue) (n : ℕ) (memo : MemoStringWire)
      → IsValid env recipient
      → n < 2 ^ 64
      → IsMemo env memo
      → PayloadRoundTrips env (token_transfer recipient (pos n) memo)
  unfolding serialize_payload_bytes concat_array part_bytes octets_to_bytes deserialize_payload_of
      canonical_payload payload_type to_principal to_memo create_token_transfer_payload
  token_transfer-RoundTrips recipient n memo hr ha hm =
      let r = deserialize_cv-RoundTrips env laws recipient hr in
      let m = memo-RoundTrips env laws memo hm in
      record {
        wire = 0 ∷ (r.wire ++ (be_bytes 8 n ++ (m.wire ++ [])));
        writes = rw (r.writes, int_to_bytes-be_bytes 8 n (omega arith) (omega arith), m.writes);
        are_bytes = (
          omega arith,
          All-append IsByte _ _ r.are_bytes (
              All-append IsByte (be_bytes 8 n) _ (be_bytes-IsByte 8 n)
                (All-append IsByte _ _ m.are_bytes tt)),
        );
        reads = payload-Reads env 0 _ _ _ refl (
            Reads-bind _ r.reads
              (Reads-bind _ (amount-Reads n ha) (Reads-bind _ m.reads (Reads-lift refl))));
      }

  pub register_model-RoundTrips :
      (model_name model_params : LengthPrefixedStringWire)
      → IsName env model_name
      → IsName env model_params
      → PayloadRoundTrips env (register_model model_name model_params)
  unfolding serialize_payload_bytes concat_array part_bytes octets_to_bytes deserialize_payload_of
      canonical_payload payload_type to_lp_string create_register_model_payload
  register_model-RoundTrips model_name model_params hn hp =
      let m = name-RoundTrips env laws model_name hn in
      let p = name-RoundTrips env laws model_params hp in
      record {
        wire = 0x0a ∷ (m.wire ++ (p.wire ++ []));
        writes = rw (m.writes, p.writes);
        are_bytes =
            (omega arith, All-append IsByte _ _ m.are_bytes (All-append IsByte _ _ p.are_bytes tt));
        reads =
            payload-Reads env 0x0a _ _ _ refl
              (Reads-bind _ m.reads (Reads-bind _ p.reads (Reads-lift refl)));
      }

  pub infer-RoundTrips :
      (p : Infer) (n : ℕ)
      → p.amount ≡ pos n
      → n < 2 ^ 64
      → IsInfer env p
      → PayloadRoundTrips env (infer p)
  unfolding serialize_payload_bytes concat_array part_bytes octets_to_bytes deserialize_payload_of
      canonical_payload payload_type to_principal to_lp_string to_node_principal to_output_hash
      create_infer_payload
  infer-RoundTrips p n same small h =
      let user = deserialize_cv-RoundTrips env laws p.infer_user_address h.infer_user_address in
      let input = name-RoundTrips env laws p.user_input h.user_input in
      let context = name-RoundTrips env laws p.context h.context in
      let node = deserialize_cv-RoundTrips env laws p.node_principal h.node_principal in
      let model = name-RoundTrips env laws p.model_name h.model_name in
      let output = name-RoundTrips env laws p.output_hash h.output_hash in
      record {
        wire =
            0x09
            ∷ (user.wire
                ++ (be_bytes 8 n
                    ++ (input.wire
                        ++ (context.wire ++ (node.wire ++ (model.wire ++ (output.wire ++ [])))))));
        writes = rw (
          user.writes,
          same,
          int_to_bytes-be_bytes 8 n (omega arith) (omega arith),
          input.writes,
          context.writes,
          node.writes,
          model.writes,
          output.writes,
        );
        are_bytes = (
          omega arith,
          All-append IsByte _ _ user.are_bytes (
              All-append IsByte (be_bytes 8 n) _ (be_bytes-IsByte 8 n) (
                All-append IsByte _ _ input.are_bytes (
                  All-append IsByte _ _ context.are_bytes (
                    All-append IsByte _ _ node.are_bytes (
                      All-append IsByte _ _ model.are_bytes
                        (All-append IsByte _ _ output.are_bytes tt)))))),
        );
        reads = rw same (
            payload-Reads env 0x09 _ _ _ refl (
              Reads-bind _ user.reads (
                Reads-bind _ (amount-Reads n small) (
                  Reads-bind _ input.reads (
                    Reads-bind _ context.reads (
                      Reads-bind _ node.reads (
                        Reads-bind _ model.reads
                          (Reads-bind _ output.reads (Reads-lift refl)))))))));
      }
