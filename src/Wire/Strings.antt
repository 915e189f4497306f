-- ===== src/Wire/Strings.antt =====
-- Length-prefixed strings and memos: what is written reads back.
use funai_sdk.Prelude.{
  ℕ, suc, ◌^◌, ◌≤◌, ◌<◌, ◌≡◌, refl, false, none, some, [], ◌∷◌, ◌++◌, length, All-append, arith,
  le→ltb, sym,
}
use funai_sdk.Js.Text.{JsString}
use funai_sdk.Js.Result.{ok}
use funai_sdk.Bytes.Hex.{IsByte, concat_array}
use funai_sdk.Bytes.IntLaws.{be_bytes, be_bytes-IsByte, length-be_bytes, hex_to_bytes-int_to_hex}
use funai_sdk.Bytes.ParseLaws.{hex_to_int-be_bytes}
use funai_sdk.Platform.{Platform, PlatformLaws, IsScalarText}
use funai_sdk.Reader.Reads.{Reads-bind, Reads-lift, read_bytes-Reads}
use funai_sdk.Reader.RoundTrips.{RoundTrips}
use funai_sdk.Wire.Types.{LengthPrefixedStringWire}
use funai_sdk.Wire.Create.{exceeds_max_length_bytes, create_lp_string}
use funai_sdk.Wire.Write.{serialize_lp_string_bytes}
use funai_sdk.Wire.Read.{deserialize_lp_string}

module _ (env : Platform) where
  -- A string as `createLPString` makes it, under a prefix of `prefix` bytes.
  pub record IsLpString (prefix max : ℕ) (lps : LengthPrefixedStringWire) : Type 0 where
    pub scalar : IsScalarText lps.content
    pub fits : length (env.utf8_to_bytes lps.content) ≤ max
    pub same_prefix : lps.length_prefix_bytes ≡ prefix
    pub same_max : lps.max_length_bytes ≡ max

  pub exceeds_max_length_bytes-fits :
      (s : JsString) (max : ℕ)
      → length (env.utf8_to_bytes s) ≤ max
      → exceeds_max_length_bytes env s max ≡ false
  unfolding exceeds_max_length_bytes
  exceeds_max_length_bytes-fits [] max h = refl
  exceeds_max_length_bytes-fits (c ∷ cs) max h = le→ltb _ _ h

  create_lp_string-IsLpString :
      (prefix max : ℕ) (lps : LengthPrefixedStringWire)
      → IsLpString (suc prefix) (suc max) lps
      → create_lp_string env lps.content (some (suc prefix)) (some (suc max)) ≡ ok lps
  unfolding create_lp_string
  create_lp_string-IsLpString prefix max lps v =
      rw (exceeds_max_length_bytes-fits lps.content (suc max) v.fits) (
        let p = sym v.same_prefix in
        let m = sym v.same_max in
        λ i.
          ok (record { content = lps.content; length_prefix_bytes = p i; max_length_bytes = m i }))

-- What `createLPString(content)` makes.
abbrev pub name_of : JsString → LengthPrefixedStringWire
name_of content = record { content = content; length_prefix_bytes = 1; max_length_bytes = 128 }

pub create_lp_string-fits :
    (env : Platform) (content : JsString)
    → length (env.utf8_to_bytes content) ≤ 128
    → create_lp_string env content none none ≡ ok (name_of content)
unfolding create_lp_string
create_lp_string-fits env content h = rw (exceeds_max_length_bytes-fits env content 128 h)

module _ (env : Platform) (laws : PlatformLaws env) where
  -- For a platform that keeps its laws, a prefix of at least one byte and a positive maximum that
  -- the prefix can hold, `serializeLPStringBytes` of a string that UTF-8 encodes into no more than
  -- the maximum returns an array of bytes off which `deserializeLPString` reads that string and
  -- nothing more.
  pub lp_string-RoundTrips :
      (prefix max : ℕ) (lps : LengthPrefixedStringWire)
      → suc max < 256 ^ suc prefix
      → IsLpString env (suc prefix) (suc max) lps
      → RoundTrips
          (serialize_lp_string_bytes env lps)
          (deserialize_lp_string env (some (suc prefix)) (some (suc max)))
          lps
  unfolding serialize_lp_string_bytes deserialize_lp_string concat_array
  lp_string-RoundTrips prefix max lps room v =
      let content = env.utf8_to_bytes lps.content in
      let n : ℕ = length content in
      let fits : n < 256 ^ suc prefix = omega (arith, v.fits) in
      record {
        wire = be_bytes (suc prefix) n ++ (content ++ []);
        writes = rw (v.same_prefix, hex_to_bytes-int_to_hex (suc prefix) n (omega arith) fits);
        are_bytes =
            All-append IsByte (be_bytes (suc prefix) n) (content ++ [])
              (be_bytes-IsByte (suc prefix) n)
              (All-append IsByte content [] (laws.encode-IsByte lps.content) tt);
        reads = Reads-bind _ (rw length-be_bytes at (read_bytes-Reads (be_bytes (suc prefix) n))) (
            rw (hex_to_int-be_bytes (suc prefix) n (omega arith) fits) (
              Reads-bind _ (read_bytes-Reads content) (
                Reads-lift (
                  rw (laws.decode-encode lps.content v.scalar)
                    (create_lp_string-IsLpString env prefix max lps v)))));
      }
