-- ===== src/Payload/Arguments.antt =====
-- The arguments of a contract call, and the first byte of a payload.
use funai_sdk.Prelude.{ℕ, ◌≡◌, refl, some, List, [], ◌∷◌, ◌++◌, All, All-append}
use funai_sdk.Js.Result.{ok, unknown_payload}
use funai_sdk.Bytes.Hex.{Bytes, IsByte, Part, bytes, concat_array, part_bytes}
use funai_sdk.Platform.{Platform, PlatformLaws}
use funai_sdk.Reader.Reads.{Reads, Reads-bind, Reads-last, Reads-pure, read_uint8_enum-Reads}
use funai_sdk.Clarity.Types.{Values, nil, cons, count_values}
use funai_sdk.Clarity.Serialize.{serialize_values}
use funai_sdk.Clarity.Deserialize.{deserialize_cv, read_values}
use funai_sdk.Clarity.Valid.{AreValid, canonical_values}
use funai_sdk.Clarity.RoundTrip.{deserialize_cv-RoundTrips}
use funai_sdk.Payload.Types.{PayloadWire, PayloadType, payload_type}
use funai_sdk.Payload.Read.{deserialize_payload, deserialize_payload_of}

pub record ArgumentsRoundTrip (env : Platform) (vs : Values) : Type 0 where
  pub parts : List Part
  pub wire : Bytes
  pub writes : serialize_values env vs ≡ ok parts
  pub joins : concat_array parts ≡ ok wire
  pub are_bytes : All IsByte wire
  pub reads :
      Reads (read_values env (deserialize_cv env) (count_values vs)) wire (canonical_values env vs)

pub arguments-RoundTrip :
    (env : Platform)
    → PlatformLaws env
    → (vs : Values) → AreValid env vs
    → ArgumentsRoundTrip env vs
unfolding serialize_values concat_array part_bytes read_values canonical_values
arguments-RoundTrip env laws nil h = record {
  parts = [];
  wire = [];
  writes = refl;
  joins = refl;
  are_bytes = tt;
  reads = Reads-pure nil;
}
arguments-RoundTrip env laws (cons v vs) (hv, hs) =
    let r = deserialize_cv-RoundTrips env laws v hv in
    let rs = arguments-RoundTrip env laws vs hs in
    record {
      parts = bytes r.wire ∷ rs.parts;
      wire = r.wire ++ rs.wire;
      writes = rw r.writes (rw rs.writes);
      joins = rw rs.joins;
      are_bytes = All-append IsByte _ _ r.are_bytes rs.are_bytes;
      reads = Reads-bind _ r.reads (Reads-last _ rs.reads (Reads-pure _));
    }

pub payload-Reads :
    (env : Platform) (n : ℕ) (t : PayloadType) (body : Bytes) (p : PayloadWire)
    → payload_type n ≡ some t
    → Reads (deserialize_payload_of env t) body p
    → Reads (deserialize_payload env) (n ∷ body) p
unfolding deserialize_payload
payload-Reads env n t body p member h =
    Reads-bind _ (read_uint8_enum-Reads payload_type unknown_payload n t member) h
