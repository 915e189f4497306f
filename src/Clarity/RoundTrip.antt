-- ===== src/Clarity/RoundTrip.antt =====
-- Clarity values: `deserializeCV` undoes `serializeCVBytes` up to the order of tuple keys.
use funai_sdk.Prelude.{◌++◌, length, length-append, All, arith}
use funai_sdk.Js.Text.{JsString}
use funai_sdk.Platform.{Platform, PlatformLaws}
use funai_sdk.Reader.RoundTrips.{RoundTrips}
use funai_sdk.Clarity.Types.{
  ClarityValue, Values, TupleData, integer, unsigned, buffer, bool_true, bool_false,
  principal_standard, principal_contract, response_ok, response_err, optional_none, optional_some,
  list, tuple, string_ascii, string_utf8, nil, cons, empty, entry,
}
use funai_sdk.Clarity.Serialize.{serialize_cv_bytes}
use funai_sdk.Clarity.Deserialize.{deserialize_cv}
use funai_sdk.Clarity.Valid.{IsValid, AreValid, HasValid, canonical, entries}
use funai_sdk.Clarity.Tagged.{CvRoundTrips}
use funai_sdk.Clarity.Leaves.{
  integer-CvRoundTrips, unsigned-CvRoundTrips, buffer-CvRoundTrips, true-CvRoundTrips,
  false-CvRoundTrips, none-CvRoundTrips, ascii-CvRoundTrips, utf8-CvRoundTrips,
}
use funai_sdk.Clarity.Principals.{standard-CvRoundTrips, contract-CvRoundTrips}
use funai_sdk.Clarity.Lists.{ValuesRoundTrip, nil-ValuesRoundTrip, cons-ValuesRoundTrip}
use funai_sdk.Clarity.Nested.{
  ok-CvRoundTrips, err-CvRoundTrips, some-CvRoundTrips, list-CvRoundTrips, tuple-CvRoundTrips,
}
use funai_sdk.Clarity.Tuples.{EntryRoundTrips}

empty-RoundTrip : (env : Platform) → All (EntryRoundTrips env) (entries empty)
unfolding entries
empty-RoundTrip env = tt

entry-RoundTrip :
    (env : Platform) (key : JsString) (v : ClarityValue) (d : TupleData)
    → EntryRoundTrips env (key, v)
    → All (EntryRoundTrips env) (entries d)
    → All (EntryRoundTrips env) (entries (entry key v d))
unfolding entries
entry-RoundTrip env key v d h hs = (h, hs)

module _ (env : Platform) (laws : PlatformLaws env) where
  mutual
    cv-CvRoundTrips : (v : ClarityValue) → IsValid env v → CvRoundTrips env v
    cv-CvRoundTrips (integer n) h = integer-CvRoundTrips env n h
    cv-CvRoundTrips (unsigned n) h = unsigned-CvRoundTrips env n h
    cv-CvRoundTrips (buffer s) h = buffer-CvRoundTrips env s h
    cv-CvRoundTrips bool_true h = true-CvRoundTrips env
    cv-CvRoundTrips bool_false h = false-CvRoundTrips env
    cv-CvRoundTrips (principal_standard s) h = standard-CvRoundTrips env laws s h
    cv-CvRoundTrips (principal_contract s) h = contract-CvRoundTrips env laws s h
    cv-CvRoundTrips (response_ok v) h = ok-CvRoundTrips env v (cv-CvRoundTrips v h)
    cv-CvRoundTrips (response_err v) h = err-CvRoundTrips env v (cv-CvRoundTrips v h)
    cv-CvRoundTrips optional_none h = none-CvRoundTrips env
    cv-CvRoundTrips (optional_some v) h = some-CvRoundTrips env v (cv-CvRoundTrips v h)
    cv-CvRoundTrips (list vs) h = list-CvRoundTrips env vs h.0 (values-RoundTrip vs h.1)
    cv-CvRoundTrips (tuple d) h = tuple-CvRoundTrips env laws d h.0 h.1 (entries-RoundTrip d h.2)
    cv-CvRoundTrips (string_ascii s) h = ascii-CvRoundTrips env s h.0 h.1
    cv-CvRoundTrips (string_utf8 s) h = utf8-CvRoundTrips env laws s h.0 h.1

    values-RoundTrip : (vs : Values) → AreValid env vs → ValuesRoundTrip env vs
    values-RoundTrip nil h = nil-ValuesRoundTrip env
    values-RoundTrip (cons v vs) h =
        cons-ValuesRoundTrip env v vs (cv-CvRoundTrips v h.0) (values-RoundTrip vs h.1)

    entries-RoundTrip : (d : TupleData) → HasValid env d → All (EntryRoundTrips env) (entries d)
    entries-RoundTrip empty h = empty-RoundTrip env
    entries-RoundTrip (entry key v d) h =
        entry-RoundTrip env key v d (h.0, cv-CvRoundTrips v h.1) (entries-RoundTrip d h.2)

  -- For a platform that keeps its laws and a valid Clarity value, `serializeCVBytes` returns an
  -- array of bytes, and `deserializeCV`, wherever that array stands in its source, reads exactly
  -- these bytes and returns the canonical form of the value: the value with the keys of every
  -- tuple in the order of `localeCompare`. The fuel of the model is enough.
  pub deserialize_cv-RoundTrips :
      (v : ClarityValue)
      → IsValid env v
      → RoundTrips (serialize_cv_bytes env v) (deserialize_cv env) (canonical env v)
  unfolding deserialize_cv
  deserialize_cv-RoundTrips v h =
      let c = cv-CvRoundTrips v h in
      record {
        wire = c.wire;
        writes = c.writes;
        are_bytes = c.are_bytes;
        reads = record {
          apply = λ front rest.
              (c.reads (length (front ++ (c.wire ++ rest)))
                  (rw (length-append, length-append) (omega (arith, c.deeper)))).apply
                front rest;
        };
      }
