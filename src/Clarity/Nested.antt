-- ===== src/Clarity/Nested.antt =====
-- Clarity values that hold others: what is written reads back, given that the parts do.
use funai_sdk.Prelude.{
  ℕ, zero, suc, ◌^◌, ◌≤◌, ◌<◌, ◌≡◌, refl, ap, sym, ◌∙◌, true, List, [], ◌∷◌, ◌++◌, length,
  length-append, All, All-append, arith,
}
use funai_sdk.Bytes.Hex.{IsByte, concat_array, part_bytes}
use funai_sdk.Bytes.Buffer.{write_uint32_be}
use funai_sdk.Bytes.Words.{write_uint32_be-IsByte, length-write_uint32_be}
use funai_sdk.Platform.{Platform, PlatformLaws}
use funai_sdk.Reader.Reads.{
  Reads, Reads-bind, Reads-last, Reads-lift, Reads-pure, read_uint32-Reads,
}
use funai_sdk.Clarity.Types.{
  ClarityValue, Values, TupleData, response_ok, response_err, optional_some, list, tuple, empty,
  entry, count_values, count_entries, wire_type, ok_type, err_type, some_type, list_type,
  tuple_type,
}
use funai_sdk.Clarity.Create.{tuple_cv, all_clarity_names}
use funai_sdk.Clarity.Entries.{
  sort_keys, Distinct, map_values, map_values-sort_keys, length-sort_keys, All-sort_keys,
  All-sort_keys_inverse, Distinct-sort_keys,
}
use funai_sdk.Clarity.Serialize.{serialize_cv_bytes, serialize_entries}
use funai_sdk.Clarity.Deserialize.{deserialize_cv_fuel, deserialize_as, rounds}
use funai_sdk.Clarity.Valid.{canonical, canonical_entries, depth, depth_entries, entries}
use funai_sdk.Clarity.Tagged.{CvRoundTrips, tagged-CvRoundTrips}
use funai_sdk.Clarity.Lists.{ValuesRoundTrip}
use funai_sdk.Clarity.Tuples.{Entry, EntryRoundTrips, Shallow, FreshIn, sorted-RoundTrip}

-- Fuel for one level more.
spend {ℓ} : {n : ℕ} (P : ℕ → Type ℓ) → ((f : ℕ) → n ≤ f → P (suc f)) → (f : ℕ) → suc n ≤ f → P f
spend P k zero h = absurd (omega arith)
spend P k (suc f) h = k f (omega arith)

module _ (env : Platform) where
  -- A value under one more byte: `ok`, `err` and `some`.
  pub ok-CvRoundTrips : (v : ClarityValue) → CvRoundTrips env v → CvRoundTrips env (response_ok v)
  unfolding serialize_cv_bytes deserialize_as canonical depth wire_type
  ok-CvRoundTrips v r =
      tagged-CvRoundTrips env (response_ok v) 0x07 _ r.wire (omega arith) refl (rw r.writes)
        r.are_bytes (omega (arith, r.deeper))
        (spend (λ f. Reads (deserialize_as env (deserialize_cv_fuel env f) ok_type) r.wire _)
          (λ f h. Reads-last _ (r.reads f h) (Reads-pure _)))

  pub err-CvRoundTrips : (v : ClarityValue) → CvRoundTrips env v → CvRoundTrips env (response_err v)
  unfolding serialize_cv_bytes deserialize_as canonical depth wire_type
  err-CvRoundTrips v r =
      tagged-CvRoundTrips env (response_err v) 0x08 _ r.wire (omega arith) refl (rw r.writes)
        r.are_bytes (omega (arith, r.deeper))
        (spend (λ f. Reads (deserialize_as env (deserialize_cv_fuel env f) err_type) r.wire _)
          (λ f h. Reads-last _ (r.reads f h) (Reads-pure _)))

  pub some-CvRoundTrips :
      (v : ClarityValue) → CvRoundTrips env v → CvRoundTrips env (optional_some v)
  unfolding serialize_cv_bytes deserialize_as canonical depth wire_type
  some-CvRoundTrips v r =
      tagged-CvRoundTrips env (optional_some v) 0x0a _ r.wire (omega arith) refl (rw r.writes)
        r.are_bytes (omega (arith, r.deeper))
        (spend (λ f. Reads (deserialize_as env (deserialize_cv_fuel env f) some_type) r.wire _)
          (λ f h. Reads-last _ (r.reads f h) (Reads-pure _)))

  pub list-CvRoundTrips :
      (vs : Values) → count_values vs < 2 ^ 32 → ValuesRoundTrip env vs → CvRoundTrips env (list vs)
  unfolding serialize_cv_bytes deserialize_as canonical depth wire_type concat_array part_bytes
      rounds
  list-CvRoundTrips vs small r =
      tagged-CvRoundTrips env (list vs) 0x0b _ (write_uint32_be (count_values vs) ++ r.wire)
        (omega arith) refl (rw r.writes (rw r.joins))
        (All-append IsByte _ _ (write_uint32_be-IsByte _) r.are_bytes)
        (rw length-append (omega (arith, length-write_uint32_be (count_values vs), r.deeper)))
        (spend (λ f. Reads (deserialize_as env (deserialize_cv_fuel env f) list_type) _ _)
          (λ f h.
            Reads-bind _ (read_uint32-Reads (count_values vs) small)
              (Reads-last _ (r.reads f h) (Reads-pure _))))

serialize_entries-entries :
    (env : Platform) (d : TupleData)
    → serialize_entries env d ≡ map_values (serialize_cv_bytes env) (entries d)
unfolding serialize_entries entries
serialize_entries-entries env empty = refl
serialize_entries-entries env (entry key v d) = rw (serialize_entries-entries env d)

canonical_entries-entries :
    (env : Platform) (d : TupleData)
    → canonical_entries env d ≡ map_values (canonical env) (entries d)
unfolding canonical_entries entries
canonical_entries-entries env empty = refl
canonical_entries-entries env (entry key v d) = rw (canonical_entries-entries env d)

length-entries : (d : TupleData) → length (entries d) ≡ count_entries d
unfolding entries
length-entries empty = refl
length-entries (entry key v d) = ap suc (length-entries d)

depth_entries-Shallow : (d : TupleData) (n : ℕ) → depth_entries d ≤ n → All (Shallow n) (entries d)
unfolding depth_entries entries
depth_entries-Shallow empty n h = tt
depth_entries-Shallow (entry key v d) n h = (omega arith, depth_entries-Shallow d n (omega arith))

Shallow-depth_entries : (d : TupleData) (n : ℕ) → All (Shallow n) (entries d) → depth_entries d ≤ n
unfolding depth_entries entries
Shallow-depth_entries empty n h = omega arith
Shallow-depth_entries (entry key v d) n (hv, h) = omega (arith, Shallow-depth_entries d n h)

all_clarity_names-entries :
    (env : Platform) (es : List Entry)
    → All (EntryRoundTrips env) es
    → all_clarity_names (map_values (canonical env) es) ≡ true
unfolding all_clarity_names
all_clarity_names-entries env [] h = refl
all_clarity_names-entries env (e ∷ es) ((hk, _), h) = rw (hk, all_clarity_names-entries env es h)

FreshIn-empty : (es : List Entry) → FreshIn {A = ClarityValue} [] es
FreshIn-empty [] = tt
FreshIn-empty (e ∷ es) = (tt, FreshIn-empty es)

module _ (env : Platform) (laws : PlatformLaws env) where
  pub tuple-CvRoundTrips :
      (d : TupleData)
      → count_entries d < 2 ^ 32
      → Distinct (entries d)
      → All (EntryRoundTrips env) (entries d)
      → CvRoundTrips env (tuple d)
  unfolding serialize_cv_bytes deserialize_as canonical depth wire_type concat_array part_bytes
      rounds tuple_cv
  tuple-CvRoundTrips d small distinct good =
      let le = env.locale_le in
      let es = sort_keys le (entries d) in
      let all_good = All-sort_keys (EntryRoundTrips env) le (entries d) good in
      let r = sorted-RoundTrip env laws es all_good (Distinct-sort_keys le (entries d) distinct) in
      let size : length es ≡ count_entries d = length-sort_keys le (entries d) ∙ length-entries d in
      let sorted : sort_keys le (serialize_entries env d) ≡ map_values (serialize_cv_bytes env) es =
        rw (serialize_entries-entries env d)
          (sym (map_values-sort_keys (serialize_cv_bytes env) le (entries d))) in
      let ordered : map_values (canonical env) es ≡ sort_keys le (canonical_entries env d) =
        rw (canonical_entries-entries env d)
          (map_values-sort_keys (canonical env) le (entries d)) in
      let names : all_clarity_names (sort_keys le (canonical_entries env d)) ≡ true =
        rw ordered at (all_clarity_names-entries env es all_good) in
      let shallow : depth_entries d ≤ length r.wire =
        Shallow-depth_entries d _ (All-sort_keys_inverse (Shallow _) le (entries d) r.deeper) in
      tagged-CvRoundTrips env (tuple d) 0x0c _ (write_uint32_be (count_entries d) ++ r.wire)
        (omega arith) refl (rw sorted (rw r.writes (rw r.joins)))
        (All-append IsByte _ _ (write_uint32_be-IsByte _) r.are_bytes)
        (rw length-append (omega (arith, length-write_uint32_be (count_entries d), shallow)))
        (spend (λ f. Reads (deserialize_as env (deserialize_cv_fuel env f) tuple_type) _ _)
          (λ f h. Reads-bind _ (read_uint32-Reads (count_entries d) small) (
            Reads-last _
              (rw (size, ordered) at
                (r.reads f []
                  (All-sort_keys (Shallow f) le (entries d) (depth_entries-Shallow d f h))
                  (FreshIn-empty es)))
              (Reads-lift (rw names)))))
