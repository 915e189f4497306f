-- ===== src/Clarity/Tuples.antt =====
-- The entries of a tuple: what is written in the order of the sorted keys reads back in that order,
-- given that each value reads back.
use funai_sdk.Prelude.{
  ℕ, suc, ◌+◌, ◌≤◌, ◌≡◌, refl, sym, true, none, List, [], ◌∷◌, ◌++◌, append_assoc, append-nil,
  length, length-append, All, All-append, arith,
}
use funai_sdk.Js.Text.{JsString}
use funai_sdk.Js.Result.{ok}
use funai_sdk.Bytes.Hex.{Bytes, IsByte, Part, bytes, concat_array, part_bytes}
use funai_sdk.Platform.{Platform, PlatformLaws, IsScalarText-ascii}
use funai_sdk.Reader.Reads.{Reads, Reads-bind, Reads-pure}
use funai_sdk.Reader.RoundTrips.{RoundTrips}
use funai_sdk.Wire.Strings.{name_of, create_lp_string-fits}
use funai_sdk.Wire.RoundTrip.{name-RoundTrips}
use funai_sdk.Wire.Write.{serialize_lp_string_bytes}
use funai_sdk.Wire.Read.{deserialize_lp_string}
use funai_sdk.Clarity.Types.{ClarityValue}
use funai_sdk.Clarity.Names.{is_clarity_name}
use funai_sdk.Clarity.Keys.{is_clarity_name-IsAscii, length-is_clarity_name, str_eq-proto}
use funai_sdk.Clarity.Entries.{assign, assign_own-Fresh, Fresh, Distinct, Fresh-append, map_values}
use funai_sdk.Clarity.Serialize.{serialize_cv_bytes, serialize_sorted}
use funai_sdk.Clarity.Deserialize.{deserialize_cv_fuel, read_entries}
use funai_sdk.Clarity.Valid.{canonical, depth}
use funai_sdk.Clarity.Tagged.{CvRoundTrips}

abbrev pub Entry : Type 0
Entry = JsString × ClarityValue

abbrev pub EntryRoundTrips : Platform → Entry → Type 0
EntryRoundTrips env e = (is_clarity_name e.0 ≡ true) × CvRoundTrips env e.1

abbrev pub Shallow : ℕ → Entry → Type 0
Shallow n e = depth e.1 ≤ n

-- The keys of `es` are not among those of `data'`, and differ from one another.
abbrev pub FreshIn : {A : Type 0} → List (JsString × A) → List Entry → Type 0
FreshIn data' [] = Unit {0}
FreshIn data' (e ∷ es) = Fresh e.0 data' × FreshIn data' es

FreshIn-snoc :
    (data' : List Entry) (e : Entry) (es : List Entry)
    → FreshIn data' es
    → Fresh e.0 es
    → FreshIn (data' ++ (e ∷ [])) es
FreshIn-snoc data' e [] h d = tt
FreshIn-snoc data' e (f ∷ fs) (hf, hs) (df, ds) =
    (Fresh-append f.0 data' (e ∷ []) hf ((λ p. df (sym p)), tt), FreshIn-snoc data' e fs hs ds)

module _ (env : Platform) where
  pub record SortedRoundTrip (es : List Entry) : Type 0 where
    pub parts : List Part
    pub wire : Bytes
    pub writes : serialize_sorted env (map_values (serialize_cv_bytes env) es) ≡ ok parts
    pub joins : concat_array parts ≡ ok wire
    pub are_bytes : All IsByte wire
    pub deeper : All (Shallow (length wire)) es
    pub reads :
        (f : ℕ) (data' : List Entry)
        → All (Shallow f) es
        → FreshIn data' es
        → Reads
            (read_entries env (deserialize_cv_fuel env (suc f)) (length es) data')
            wire
            (data' ++ map_values (canonical env) es)

All-Shallow-le : (m n : ℕ) (es : List Entry) → m ≤ n → All (Shallow m) es → All (Shallow n) es
All-Shallow-le m n [] h a = tt
All-Shallow-le m n (e ∷ es) h (ae, a) = (omega arith, All-Shallow-le m n es h a)

assign-new :
    (key : JsString) (value : ClarityValue) (data' : List Entry)
    → is_clarity_name key ≡ true
    → Fresh key data'
    → assign key value data' ≡ data' ++ ((key, value) ∷ [])
unfolding assign
assign-new key value data' h fresh =
    rw (str_eq-proto key h) (assign_own-Fresh key value data' fresh)

module _ (env : Platform) (laws : PlatformLaws env) where
  utf8-name : (key : JsString) → is_clarity_name key ≡ true → length (env.utf8_to_bytes key) ≤ 128
  utf8-name key h =
      rw (laws.encode_ascii key (is_clarity_name-IsAscii key h))
        (omega (arith, length-is_clarity_name key h))

  key-RoundTrips :
      (key : JsString)
      → is_clarity_name key ≡ true
      → RoundTrips
          (serialize_lp_string_bytes env (name_of key))
          (deserialize_lp_string env none none)
          (name_of key)
  key-RoundTrips key h = name-RoundTrips env laws (name_of key) (record {
    scalar = IsScalarText-ascii key (is_clarity_name-IsAscii key h);
    fits = utf8-name key h;
    same_prefix = refl;
    same_max = refl;
  })

  pub sorted-RoundTrip :
      (es : List Entry) → All (EntryRoundTrips env) es → Distinct es → SortedRoundTrip env es
  unfolding serialize_sorted concat_array part_bytes read_entries
  sorted-RoundTrip [] h d = record {
    parts = [];
    wire = [];
    writes = refl;
    joins = refl;
    are_bytes = tt;
    deeper = tt;
    reads = λ f data' _ _. rw append-nil (Reads-pure data');
  }
  sorted-RoundTrip ((key, v) ∷ es) ((hk, r), h) (fresh, d) =
      let k = key-RoundTrips key hk in
      let rs = sorted-RoundTrip es h d in
      let total : length (k.wire ++ (r.wire ++ rs.wire))
          ≡ length k.wire + (length r.wire + length rs.wire) =
        rw (length-append, length-append) in
      record {
        parts = bytes k.wire ∷ bytes r.wire ∷ rs.parts;
        wire = k.wire ++ (r.wire ++ rs.wire);
        writes =
            rw (create_lp_string-fits env key (utf8-name key hk))
              (rw k.writes (rw r.writes (rw rs.writes)));
        joins = rw rs.joins;
        are_bytes =
            All-append IsByte _ _ k.are_bytes (All-append IsByte _ _ r.are_bytes rs.are_bytes);
        deeper = (
          omega (arith, total, r.deeper),
          All-Shallow-le (length rs.wire) _ es (omega (arith, total)) rs.deeper,
        );
        reads = λ f data' (hv, hs) (new, news). Reads-bind _ k.reads (
            Reads-bind _ (r.reads f hv) (
              rw (assign-new key (canonical env v) data' hk new) (
                rw append_assoc at (
                  rs.reads f (data' ++ ((key, canonical env v) ∷ [])) hs
                    (FreshIn-snoc data' (key, canonical env v) es news fresh)))));
      }
