-- ===== src/Transaction/RoundTrip.antt =====
-- Transactions: what is written reads back.
use funai_sdk.Prelude.{
  ℕ, ◌<◌, ◌^◌, ◌≡◌, refl, Option, some, List, [], ◌∷◌, ◌++◌, length, All, All-append, arith,
}
use funai_sdk.Prelude.Int.{pos}
use funai_sdk.Js.Number.{int}
use funai_sdk.Js.Result.{
  ok, unknown_transaction_version, unknown_anchor_mode, unknown_post_condition_mode,
}
use funai_sdk.Bytes.Hex.{Bytes, IsByte, Part, bytes, concat_array, part_bytes, octets_to_bytes}
use funai_sdk.Bytes.Buffer.{write_uint32_be}
use funai_sdk.Bytes.Words.{write_uint32_be-IsByte}
use funai_sdk.Bytes.IntLaws.{be_bytes, be_bytes-IsByte, length-be_bytes, hex_to_bytes-int_to_hex}
use funai_sdk.Bytes.ParseLaws.{hex_to_int-be_bytes}
use funai_sdk.Platform.{Platform, PlatformLaws}
use funai_sdk.Reader.Reads.{
  Reads, Reads-bind, Reads-last, Reads-pure, read_bytes-Reads, read_uint32-Reads,
  read_uint8_enum-Reads,
}
use funai_sdk.Reader.RoundTrips.{RoundTrips}
use funai_sdk.Clarity.Deserialize.{rounds}
use funai_sdk.PostCondition.Types.{PostConditionWire}
use funai_sdk.PostCondition.RoundTrip.{
  IsPostCondition, canonical_condition, post_condition-RoundTrips,
}
use funai_sdk.Payload.Valid.{IsPayload, canonical_payload}
use funai_sdk.Payload.RoundTrip.{payload-RoundTrips}
use funai_sdk.Payload.Write.{write_uint32_number}
use funai_sdk.Auth.Types.{Curve}
use funai_sdk.Auth.Valid.{IsAuthorization}
use funai_sdk.Auth.RoundTrip.{authorization-RoundTrips}
use funai_sdk.Transaction.Types.{
  TransactionVersion, mainnet, testnet, AnchorMode, on_chain_only, off_chain_only, any,
  PostConditionMode, allow, deny, FunaiTransactionWire, version_byte, transaction_version_of,
  anchor_mode_byte, anchor_mode_of, mode_byte, post_condition_mode_of,
}
use funai_sdk.Transaction.Wire.{
  serialize_conditions, serialize_condition_list, serialize_transaction_bytes, read_conditions,
  deserialize_condition_list, deserialize_transaction,
}

-- A byte of an enumeration: it is written, and stands for the member.
record IsMember {ℓ} {A : Type ℓ} (member : ℕ → Option A) (n : ℕ) (a : A) : Type ℓ where
  writes : octets_to_bytes n ≡ ok (n ∷ [])
  small : n < 256
  stands : member n ≡ some a

version-IsMember : (v : TransactionVersion) → IsMember transaction_version_of (version_byte v) v
unfolding octets_to_bytes transaction_version_of version_byte
version-IsMember mainnet = record { writes = refl; small = omega arith; stands = refl }
version-IsMember testnet = record { writes = refl; small = omega arith; stands = refl }

anchor-IsMember : (m : AnchorMode) → IsMember anchor_mode_of (anchor_mode_byte m) m
unfolding octets_to_bytes anchor_mode_of anchor_mode_byte
anchor-IsMember on_chain_only = record { writes = refl; small = omega arith; stands = refl }
anchor-IsMember off_chain_only = record { writes = refl; small = omega arith; stands = refl }
anchor-IsMember any = record { writes = refl; small = omega arith; stands = refl }

mode-IsMember : (m : PostConditionMode) → IsMember post_condition_mode_of (mode_byte m) m
unfolding octets_to_bytes post_condition_mode_of mode_byte
mode-IsMember allow = record { writes = refl; small = omega arith; stands = refl }
mode-IsMember deny = record { writes = refl; small = omega arith; stands = refl }

pub record IsTransaction (env : Platform) (curve : Curve) (tx : FunaiTransactionWire) : Type 0 where
  pub chain : ℕ
  pub chain_small : chain < 2 ^ 32
  pub chain_is : tx.chain_id ≡ int (pos chain)
  pub auth : IsAuthorization curve tx.auth
  pub post_conditions : All (IsPostCondition env) tx.post_conditions
  pub few_conditions : length tx.post_conditions < 2 ^ 32
  pub payload : IsPayload env tx.payload

unfoldable pub canonical_conditions : Platform → List PostConditionWire → List PostConditionWire
canonical_conditions env [] = []
canonical_conditions env (c ∷ cs) = canonical_condition env c ∷ canonical_conditions env cs

-- The Clarity values of the post-conditions and of the payload in their canonical form.
unfoldable pub canonical_transaction : Platform → FunaiTransactionWire → FunaiTransactionWire
canonical_transaction env tx = record tx {
  post_conditions = canonical_conditions env tx.post_conditions;
  payload = canonical_payload env tx.payload;
}

record ConditionsRoundTrip (env : Platform) (cs : List PostConditionWire) : Type 0 where
  parts : List Part
  wire : Bytes
  writes : serialize_conditions env cs ≡ ok parts
  joins : concat_array parts ≡ ok wire
  are_bytes : All IsByte wire
  reads : Reads (read_conditions env (length cs)) wire (canonical_conditions env cs)

module _ (env : Platform) (laws : PlatformLaws env) where
  conditions-RoundTrip :
      (cs : List PostConditionWire) → All (IsPostCondition env) cs → ConditionsRoundTrip env cs
  unfolding serialize_conditions concat_array part_bytes read_conditions canonical_conditions
  conditions-RoundTrip [] h = record {
    parts = [];
    wire = [];
    writes = refl;
    joins = refl;
    are_bytes = tt;
    reads = Reads-pure [];
  }
  conditions-RoundTrip (c ∷ cs) (hc, hs) =
      let r = post_condition-RoundTrips env laws c hc in
      let rs = conditions-RoundTrip cs hs in
      record {
        parts = bytes r.wire ∷ rs.parts;
        wire = r.wire ++ rs.wire;
        writes = rw r.writes (rw rs.writes);
        joins = rw rs.joins;
        are_bytes = All-append IsByte _ _ r.are_bytes rs.are_bytes;
        reads = Reads-bind _ r.reads (Reads-last _ rs.reads (Reads-pure _));
      }

  condition_list-RoundTrips :
      (cs : List PostConditionWire)
      → All (IsPostCondition env) cs
      → length cs < 2 ^ 32
      → RoundTrips
          (serialize_condition_list env cs)
          (deserialize_condition_list env)
          (canonical_conditions env cs)
  unfolding serialize_condition_list deserialize_condition_list concat_array part_bytes
  condition_list-RoundTrips cs h small =
      let n : ℕ = length cs in
      let fits : n < 256 ^ 4 = omega arith in
      let rs = conditions-RoundTrip cs h in
      let count : rounds (int (pos n)) ≡ n = unfold rounds in refl in
      record {
        wire = be_bytes 4 n ++ rs.wire;
        writes = rw (hex_to_bytes-int_to_hex 4 n (omega arith) fits, rs.writes) (rw rs.joins);
        are_bytes = All-append IsByte (be_bytes 4 n) _ (be_bytes-IsByte 4 n) rs.are_bytes;
        reads =
            Reads-bind _ (rw length-be_bytes at (read_bytes-Reads (be_bytes 4 n)))
              (rw (hex_to_int-be_bytes 4 n (omega arith) fits) (rw count rs.reads));
      }

  -- For a platform that keeps its laws and a valid transaction, `serializeBytes` returns an array
  -- of bytes off which `deserializeTransaction` reads the transaction back, the Clarity values of
  -- its post-conditions and its payload in canonical form, and nothing more.
  pub transaction-RoundTrips :
      (curve : Curve) (tx : FunaiTransactionWire)
      → IsTransaction env curve tx
      → RoundTrips
          (serialize_transaction_bytes env curve tx)
          (deserialize_transaction env curve)
          (canonical_transaction env tx)
  unfolding serialize_transaction_bytes deserialize_transaction concat_array part_bytes
      write_uint32_number canonical_transaction
  transaction-RoundTrips curve tx h =
      let v = version-IsMember tx.transaction_version in
      let auth = authorization-RoundTrips curve tx.auth h.auth in
      let anchor = anchor-IsMember tx.anchor_mode in
      let mode = mode-IsMember tx.post_condition_mode in
      let conditions =
        condition_list-RoundTrips tx.post_conditions h.post_conditions h.few_conditions in
      let payload = payload-RoundTrips env laws tx.payload h.payload in
      record {
        wire =
            version_byte tx.transaction_version
            ∷ (write_uint32_be h.chain
                ++ (auth.wire
                    ++ (anchor_mode_byte tx.anchor_mode
                        ∷ (mode_byte tx.post_condition_mode
                            ∷ (conditions.wire ++ (payload.wire ++ []))))));
        writes =
            rw (auth.writes, conditions.writes, payload.writes, h.chain_is)
              (rw (v.writes, anchor.writes, mode.writes));
        are_bytes = (
          v.small,
          All-append IsByte _ _ (write_uint32_be-IsByte h.chain) (
              All-append IsByte _ _ auth.are_bytes (
                anchor.small,
                (
                  mode.small,
                  All-append IsByte _ _ conditions.are_bytes
                      (All-append IsByte _ [] payload.are_bytes tt),
                ),
              )),
        );
        reads = Reads-bind _ (read_uint8_enum-Reads _ unknown_transaction_version _ _ v.stands) (
            Reads-bind _ (read_uint32-Reads h.chain h.chain_small) (
              Reads-bind _ auth.reads (
                Reads-bind _ (read_uint8_enum-Reads _ unknown_anchor_mode _ _ anchor.stands) (
                  Reads-bind _ (read_uint8_enum-Reads _ unknown_post_condition_mode _ _ mode.stands)
                    (Reads-bind _ conditions.reads
                      (Reads-bind _ payload.reads (rw (← h.chain_is) (Reads-pure _))))))));
      }
