-- ===== src/Clarity/Lists.antt =====
-- The elements of a list: what is written reads back, given that each element does.
use funai_sdk.Prelude.{
  ℕ, suc, ◌≤◌, ◌≡◌, refl, List, [], ◌∷◌, ◌++◌, length, length-append, All, All-append, arith,
}
use funai_sdk.Js.Result.{ok}
use funai_sdk.Bytes.Hex.{Bytes, IsByte, Part, bytes, concat_array, part_bytes}
use funai_sdk.Platform.{Platform}
use funai_sdk.Reader.Reads.{Reads, Reads-bind, Reads-last, Reads-pure}
use funai_sdk.Clarity.Types.{ClarityValue, Values, nil, cons, count_values}
use funai_sdk.Clarity.Serialize.{serialize_values}
use funai_sdk.Clarity.Deserialize.{deserialize_cv_fuel, read_values}
use funai_sdk.Clarity.Valid.{canonical_values, depth_values}
use funai_sdk.Clarity.Tagged.{CvRoundTrips}

pub record ValuesRoundTrip (env : Platform) (vs : Values) : Type 0 where
  pub parts : List Part
  pub wire : Bytes
  pub writes : serialize_values env vs ≡ ok parts
  pub joins : concat_array parts ≡ ok wire
  pub are_bytes : All IsByte wire
  pub deeper : depth_values vs ≤ length wire
  pub reads :
      (f : ℕ)
      → depth_values vs ≤ f
      → Reads
          (read_values env (deserialize_cv_fuel env (suc f)) (count_values vs))
          wire
          (canonical_values env vs)

module _ (env : Platform) where
  pub nil-ValuesRoundTrip : ValuesRoundTrip env nil
  unfolding serialize_values concat_array read_values canonical_values depth_values
  nil-ValuesRoundTrip = record {
    parts = [];
    wire = [];
    writes = refl;
    joins = refl;
    are_bytes = tt;
    deeper = omega arith;
    reads = λ f _. Reads-pure nil;
  }

  pub cons-ValuesRoundTrip :
      (v : ClarityValue) (vs : Values)
      → CvRoundTrips env v
      → ValuesRoundTrip env vs
      → ValuesRoundTrip env (cons v vs)
  unfolding serialize_values concat_array part_bytes read_values canonical_values depth_values
  cons-ValuesRoundTrip v vs r rs = record {
    parts = bytes r.wire ∷ rs.parts;
    wire = r.wire ++ rs.wire;
    writes = rw r.writes (rw rs.writes);
    joins = rw rs.joins;
    are_bytes = All-append IsByte _ _ r.are_bytes rs.are_bytes;
    deeper = rw length-append (omega (arith, r.deeper, rs.deeper));
    reads = λ f h.
        Reads-bind _ (r.reads f (omega arith))
          (Reads-last _ (rs.reads f (omega arith)) (Reads-pure _));
  }
