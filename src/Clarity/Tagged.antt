-- ===== src/Clarity/Tagged.antt =====
-- A Clarity value as its type byte and a body.
use funai_sdk.Prelude.{
  ℕ, suc, ◌≤◌, ◌<◌, ◌≡◌, ◌∙◌, some, [], ◌∷◌, ◌++◌, length, length-append, All, All-append, arith,
  le→leb, sym, append-nil,
}
use funai_sdk.Js.Result.{ok, unknown_clarity_type}
use funai_sdk.Bytes.Hex.{Bytes, IsByte, concat_array, part_bytes, octets_to_bytes}
use funai_sdk.Platform.{Platform}
use funai_sdk.Reader.Reads.{Reads, Reads-bind, Reads-eq, read_uint8_enum-Reads}
use funai_sdk.Clarity.Types.{ClarityValue, ClarityWireType, wire_type}
use funai_sdk.Clarity.Serialize.{serialize_cv_bytes, bytes_with_type_id}
use funai_sdk.Clarity.Deserialize.{deserialize_cv_fuel, deserialize_as}
use funai_sdk.Clarity.Valid.{canonical, depth}

-- With fuel above the depth of `v`, what is written reads back as the canonical form of `v`.
pub record CvRoundTrips (env : Platform) (v : ClarityValue) : Type 0 where
  pub wire : Bytes
  pub writes : serialize_cv_bytes env v ≡ ok wire
  pub are_bytes : All IsByte wire
  pub deeper : depth v < length wire
  pub reads : (f : ℕ) → depth v ≤ f → Reads (deserialize_cv_fuel env (suc f)) wire (canonical env v)

bytes_with_type_id-byte :
    (n : ℕ) (body : Bytes) → n < 256 → bytes_with_type_id n body ≡ ok (n ∷ (body ++ []))
unfolding bytes_with_type_id concat_array part_bytes octets_to_bytes
bytes_with_type_id-byte n body h = rw (le→leb n 255 (omega arith))

pub tagged-CvRoundTrips :
    (env : Platform) (v : ClarityValue) (n : ℕ) (t : ClarityWireType) (body : Bytes)
    → n < 256
    → wire_type n ≡ some t
    → serialize_cv_bytes env v ≡ bytes_with_type_id n body
    → All IsByte body
    → depth v ≤ length body
    → ((f : ℕ)
        → depth v ≤ f
        → Reads (deserialize_as env (deserialize_cv_fuel env f) t) body (canonical env v))
    → CvRoundTrips env v
unfolding deserialize_cv_fuel
tagged-CvRoundTrips env v n t body small member written are_bytes deep reads = record {
  wire = n ∷ (body ++ []);
  writes = written ∙ bytes_with_type_id-byte n body small;
  are_bytes = (small, All-append IsByte body [] are_bytes tt);
  deeper = rw length-append (omega (arith, deep));
  reads = λ f h.
      Reads-bind _ (read_uint8_enum-Reads wire_type unknown_clarity_type n t member)
        (Reads-eq (sym (append-nil body)) (reads f h));
}
