-- ===== src/PostCondition/RoundTrip.antt =====
-- Post-conditions: what is written reads back.
use funai_sdk.Prelude.{ℕ, ◌^◌, ◌-◌, ◌<◌, ◌≡◌, refl, some, [], ◌∷◌, ◌++◌, All-append, arith, le→ltb}
use funai_sdk.Prelude.Int.{ℤ, pos, negsuc}
use funai_sdk.Js.Number.{int}
use funai_sdk.Js.Result.{ok}
use funai_sdk.Bytes.Hex.{IsByte, concat_array, part_bytes, octets_to_bytes}
use funai_sdk.Bytes.IntLaws.{be_bytes, be_bytes-IsByte, int_to_bytes-be_bytes}
use funai_sdk.Platform.{Platform, PlatformLaws}
use funai_sdk.Reader.Reads.{
  Reads, Reads-bind, Reads-last, Reads-pure, read_uint8_enum-Reads, read_big_uint_be-Reads,
}
use funai_sdk.Reader.RoundTrips.{RoundTrips}
use funai_sdk.Wire.RoundTrip.{IsAsset, IsPrincipal, asset-RoundTrips, principal-RoundTrips}
use funai_sdk.Clarity.Valid.{IsValid, canonical}
use funai_sdk.Clarity.RoundTrip.{deserialize_cv-RoundTrips}
use funai_sdk.PostCondition.Types.{
  PostConditionWire, stx, fungible, non_fungible, FungibleConditionCode, equal, greater,
  greater_equal, less, less_equal, NonFungibleConditionCode, sends, does_not_send,
  fungible_code_byte, fungible_code, non_fungible_code_byte, non_fungible_code, post_condition_type,
}
use funai_sdk.PostCondition.Write.{serialize_amount, serialize_post_condition_bytes}
use funai_sdk.PostCondition.Read.{deserialize_post_condition, deserialize_condition_of}
use funai_sdk.Reader.{read_big_uint_be}

abbrev pub IsAmount : ℤ → Type 0
IsAmount (pos n) = n < 2 ^ 64
IsAmount (negsuc n) = ⊥

abbrev pub IsPostCondition : Platform → PostConditionWire → Type 0
IsPostCondition env (stx principal code amount) = IsPrincipal env principal × IsAmount amount
IsPostCondition env (fungible principal code amount asset) =
    IsPrincipal env principal × IsAmount amount × IsAsset env asset
IsPostCondition env (non_fungible principal code asset asset_name) =
    IsPrincipal env principal × IsAsset env asset × IsValid env asset_name

-- The tuples of an asset's name in their canonical form.
unfoldable pub canonical_condition : Platform → PostConditionWire → PostConditionWire
canonical_condition env (stx principal code amount) = stx principal code amount
canonical_condition env (fungible principal code amount asset) =
    fungible principal code amount asset
canonical_condition env (non_fungible principal code asset asset_name) =
    non_fungible principal code asset (canonical env asset_name)

fungible_code-byte : (c : FungibleConditionCode) → fungible_code (fungible_code_byte c) ≡ some c
unfolding fungible_code fungible_code_byte
fungible_code-byte equal = refl
fungible_code-byte greater = refl
fungible_code-byte greater_equal = refl
fungible_code-byte less = refl
fungible_code-byte less_equal = refl

fungible_code_byte-octet :
    (c : FungibleConditionCode)
    → (octets_to_bytes (fungible_code_byte c) ≡ ok (fungible_code_byte c ∷ []))
      × (fungible_code_byte c < 256)
unfolding octets_to_bytes fungible_code_byte
fungible_code_byte-octet equal = (refl, omega arith)
fungible_code_byte-octet greater = (refl, omega arith)
fungible_code_byte-octet greater_equal = (refl, omega arith)
fungible_code_byte-octet less = (refl, omega arith)
fungible_code_byte-octet less_equal = (refl, omega arith)

non_fungible_code-byte :
    (c : NonFungibleConditionCode) → non_fungible_code (non_fungible_code_byte c) ≡ some c
unfolding non_fungible_code non_fungible_code_byte
non_fungible_code-byte sends = refl
non_fungible_code-byte does_not_send = refl

non_fungible_code_byte-octet :
    (c : NonFungibleConditionCode)
    → (octets_to_bytes (non_fungible_code_byte c) ≡ ok (non_fungible_code_byte c ∷ []))
      × (non_fungible_code_byte c < 256)
unfolding octets_to_bytes non_fungible_code_byte
non_fungible_code_byte-octet sends = (refl, omega arith)
non_fungible_code_byte-octet does_not_send = (refl, omega arith)

serialize_amount-be_bytes : (n : ℕ) → n < 2 ^ 64 → serialize_amount (pos n) ≡ ok (be_bytes 8 n)
unfolding serialize_amount
serialize_amount-be_bytes n h =
    rw (le→ltb (2 ^ 64 - 1) n (omega arith)) (int_to_bytes-be_bytes 8 n (omega arith) (omega arith))

pub amount-Reads : (n : ℕ) → n < 2 ^ 64 → Reads (read_big_uint_be (int (pos 8))) (be_bytes 8 n) n
amount-Reads n h = read_big_uint_be-Reads 8 n (omega arith) (omega arith)

module _ (env : Platform) (laws : PlatformLaws env) where
  -- For a platform that keeps its laws and a valid post-condition,
  -- `serializePostConditionWireBytes` returns an array of bytes off which
  -- `deserializePostConditionWire` reads the post-condition back, the name of a non-fungible asset
  -- in canonical form, and nothing more.
  pub post_condition-RoundTrips :
      (c : PostConditionWire)
      → IsPostCondition env c
      → RoundTrips
          (serialize_post_condition_bytes env c)
          (deserialize_post_condition env)
          (canonical_condition env c)
  unfolding serialize_post_condition_bytes deserialize_post_condition deserialize_condition_of
      concat_array part_bytes canonical_condition post_condition_type
  post_condition-RoundTrips (stx principal code (negsuc n)) h = elim h.1 [ ]
  post_condition-RoundTrips (stx principal code (pos n)) (hp, ha) =
      let p = principal-RoundTrips env laws principal hp in
      let (writes, small) = fungible_code_byte-octet code in
      record {
        wire = 0 ∷ (p.wire ++ (fungible_code_byte code ∷ (be_bytes 8 n ++ [])));
        writes =
            rw (p.writes, serialize_amount-be_bytes n ha, writes) (unfold octets_to_bytes in refl);
        are_bytes = (
          omega arith,
          All-append IsByte _ _ p.are_bytes
              (small, All-append IsByte (be_bytes 8 n) [] (be_bytes-IsByte 8 n) tt),
        );
        reads = Reads-bind _ (read_uint8_enum-Reads post_condition_type _ 0 _ refl) (
            Reads-bind _ p.reads (
              Reads-bind _ (read_uint8_enum-Reads fungible_code _ _ code (fungible_code-byte code))
                (Reads-bind _ (amount-Reads n ha) (Reads-pure _))));
      }
  post_condition-RoundTrips (fungible principal code (negsuc n) asset) h = elim h.1 [ ]
  post_condition-RoundTrips (fungible principal code (pos n) asset) (hp, ha, hs) =
      let p = principal-RoundTrips env laws principal hp in
      let a = asset-RoundTrips env laws asset hs in
      let (writes, small) = fungible_code_byte-octet code in
      record {
        wire = 1 ∷ (p.wire ++ (a.wire ++ (fungible_code_byte code ∷ (be_bytes 8 n ++ []))));
        writes =
            rw (p.writes, a.writes, serialize_amount-be_bytes n ha, writes)
              (unfold octets_to_bytes in refl);
        are_bytes = (
          omega arith,
          All-append IsByte _ _ p.are_bytes (
              All-append IsByte _ _ a.are_bytes
                (small, All-append IsByte (be_bytes 8 n) [] (be_bytes-IsByte 8 n) tt)),
        );
        reads = Reads-bind _ (read_uint8_enum-Reads post_condition_type _ 1 _ refl) (
            Reads-bind _ p.reads (
              Reads-bind _ a.reads (
                Reads-bind _
                  (read_uint8_enum-Reads fungible_code _ _ code (fungible_code-byte code))
                  (Reads-bind _ (amount-Reads n ha) (Reads-pure _)))));
      }
  post_condition-RoundTrips (non_fungible principal code asset asset_name) (hp, hs, hv) =
      let p = principal-RoundTrips env laws principal hp in
      let a = asset-RoundTrips env laws asset hs in
      let v = deserialize_cv-RoundTrips env laws asset_name hv in
      let (writes, small) = non_fungible_code_byte-octet code in
      record {
        wire = 2 ∷ (p.wire ++ (a.wire ++ (v.wire ++ (non_fungible_code_byte code ∷ []))));
        writes = rw (p.writes, a.writes, v.writes, writes) (unfold octets_to_bytes in refl);
        are_bytes = (
          omega arith,
          All-append IsByte _ _ p.are_bytes
              (All-append IsByte _ _ a.are_bytes (All-append IsByte _ _ v.are_bytes (small, tt))),
        );
        reads = Reads-bind _ (read_uint8_enum-Reads post_condition_type _ 2 _ refl) (
            Reads-bind _ p.reads (
              Reads-bind _ a.reads (
                Reads-bind _ v.reads (
                  Reads-last _
                    (read_uint8_enum-Reads non_fungible_code _ _ code (non_fungible_code-byte code))
                    (Reads-pure _)))));
      }
