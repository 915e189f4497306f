-- ===== src/Wire/RoundTrip.antt =====
-- Addresses, assets and principals: what is written reads back.
use funai_sdk.Prelude.{
  ℕ, ◌-◌, ◌<◌, ◌^◌, ◌≡◌, refl, ◌∙◌, sym, none, [], ◌∷◌, ◌++◌, All-append, arith, le→ltb,
}
use funai_sdk.Prelude.Int.{pos}
use funai_sdk.Js.Number.{int}
use funai_sdk.Js.Result.{ok}
use funai_sdk.Bytes.Hex.{
  IsByte, concat_array, part_bytes, octets_to_bytes, bytes_to_hex, hex_to_int,
}
use funai_sdk.Bytes.Ints.{number_to_big_int}
use funai_sdk.Bytes.HexLaws.{hex_to_bytes-bytes_to_hex}
use funai_sdk.Bytes.IntLaws.{be_bytes, be_bytes-IsByte, length-be_bytes, hex_to_bytes-int_to_hex}
use funai_sdk.Bytes.ParseLaws.{hex_to_int-be_bytes}
use funai_sdk.Platform.{Platform, PlatformLaws, IsHash160}
use funai_sdk.Reader.Reads.{Reads-bind, Reads-pure, read_bytes-Reads, read_uint8_enum-Reads}
use funai_sdk.Reader.RoundTrips.{RoundTrips}
use funai_sdk.Wire.Types.{
  AddressWire, LengthPrefixedStringWire, AssetWire, PostConditionPrincipalWire, origin, standard,
  contract, principal_id,
}
use funai_sdk.Wire.Write.{
  serialize_address_bytes, serialize_asset_bytes, serialize_lp_string_bytes,
  serialize_principal_bytes,
}
use funai_sdk.Wire.Read.{
  deserialize_address, deserialize_asset, deserialize_lp_string, deserialize_principal,
  deserialize_principal_of,
}
use funai_sdk.Wire.Strings.{IsLpString, lp_string-RoundTrips}

pub record IsAddress (a : AddressWire) : Type 0 where
  pub version : ℕ
  pub version_byte : version < 256
  pub same_version : a.version ≡ int (pos version)
  pub hash : IsHash160 a.hash160

number_to_big_int-byte : (n : ℕ) → n < 256 → number_to_big_int (int (pos n)) ≡ ok (pos n)
unfolding number_to_big_int
number_to_big_int-byte n h = rw (le→ltb (2 ^ 53 - 1) n (omega arith))

-- For an address with a version of one byte and a hash of 20 bytes, `serializeAddressBytes`
-- returns an array of bytes off which `deserializeAddress` reads that address and nothing more.
pub address-RoundTrips :
    (a : AddressWire) → IsAddress a → RoundTrips (serialize_address_bytes a) deserialize_address a
unfolding serialize_address_bytes deserialize_address concat_array
address-RoundTrips a v =
    let hash = v.hash.data_bytes in
    let version = be_bytes 1 v.version in
    let number : hex_to_int (bytes_to_hex version) ≡ a.version =
      hex_to_int-be_bytes 1 v.version (omega arith) (omega (arith, v.version_byte))
      ∙ sym v.same_version in
    record {
      wire = version ++ (hash ++ []);
      writes =
          rw (v.same_version, number_to_big_int-byte v.version v.version_byte)
            (rw (hex_to_bytes-int_to_hex 1 v.version (omega arith) (omega (arith, v.version_byte)))
              (rw (v.hash.text) (rw (hex_to_bytes-bytes_to_hex hash v.hash.are_bytes))));
      are_bytes =
          All-append IsByte version (hash ++ []) (be_bytes-IsByte 1 v.version)
            (All-append IsByte hash [] v.hash.are_bytes tt);
      reads = Reads-bind _ (rw length-be_bytes at (read_bytes-Reads version)) (
          Reads-bind _ (rw (v.hash.twenty) at (read_bytes-Reads hash))
            (rw (number, ← v.hash.text) (Reads-pure a)));
    }

-- The names of contracts, assets and functions: one byte of length, 128 bytes at most.
abbrev pub IsName : Platform → LengthPrefixedStringWire → Type 0
IsName env lps = IsLpString env 1 128 lps

pub record IsAsset (env : Platform) (info : AssetWire) : Type 0 where
  pub address : IsAddress info.address
  pub contract_name : IsName env info.contract_name
  pub asset_name : IsName env info.asset_name

abbrev pub IsPrincipal : Platform → PostConditionPrincipalWire → Type 0
IsPrincipal env origin = Unit {0}
IsPrincipal env (standard address) = IsAddress address
IsPrincipal env (contract address name) = IsAddress address × IsName env name

module _ (env : Platform) (laws : PlatformLaws env) where
  pub name-RoundTrips :
      (lps : LengthPrefixedStringWire)
      → IsName env lps
      → RoundTrips (serialize_lp_string_bytes env lps) (deserialize_lp_string env none none) lps
  unfolding deserialize_lp_string
  name-RoundTrips lps v = lp_string-RoundTrips env laws 0 127 lps (omega arith) v

  -- For a platform that keeps its laws and a valid asset, `serializeAssetBytes` returns an array
  -- of bytes off which `deserializeAsset` reads that asset and nothing more.
  pub asset-RoundTrips :
      (info : AssetWire)
      → IsAsset env info
      → RoundTrips (serialize_asset_bytes env info) (deserialize_asset env) info
  unfolding serialize_asset_bytes deserialize_asset concat_array
  asset-RoundTrips info v =
      let a = address-RoundTrips info.address v.address in
      let c = name-RoundTrips info.contract_name v.contract_name in
      let n = name-RoundTrips info.asset_name v.asset_name in
      record {
        wire = a.wire ++ (c.wire ++ (n.wire ++ []));
        writes = rw (a.writes, c.writes, n.writes);
        are_bytes =
            All-append IsByte _ _ a.are_bytes
              (All-append IsByte _ _ c.are_bytes (All-append IsByte _ _ n.are_bytes tt));
        reads =
            Reads-bind _ a.reads (Reads-bind _ c.reads (Reads-bind _ n.reads (Reads-pure info)));
      }

  -- For a platform that keeps its laws and a valid principal of a post-condition, in each of the
  -- three forms, `serializePrincipalBytes` returns an array of bytes off which
  -- `deserializePrincipal` reads that principal and nothing more.
  pub principal-RoundTrips :
      (p : PostConditionPrincipalWire)
      → IsPrincipal env p
      → RoundTrips (serialize_principal_bytes env p) (deserialize_principal env) p
  unfolding serialize_principal_bytes deserialize_principal deserialize_principal_of concat_array
      part_bytes octets_to_bytes principal_id
  principal-RoundTrips origin v = record {
    wire = 1 ∷ [];
    writes = refl;
    are_bytes = (omega arith, tt);
    reads = Reads-bind _ (read_uint8_enum-Reads principal_id _ 1 _ refl) (Reads-pure origin);
  }
  principal-RoundTrips (standard address) v =
      let a = address-RoundTrips address v in
      record {
        wire = 2 ∷ (a.wire ++ []);
        writes = rw a.writes;
        are_bytes = (omega arith, All-append IsByte _ _ a.are_bytes tt);
        reads =
            Reads-bind _ (read_uint8_enum-Reads principal_id _ 2 _ refl)
              (Reads-bind _ a.reads (Reads-pure (standard address)));
      }
  principal-RoundTrips (contract address name) (va, vn) =
      let a = address-RoundTrips address va in
      let n = name-RoundTrips name vn in
      record {
        wire = 3 ∷ (a.wire ++ (n.wire ++ []));
        writes = rw (a.writes, n.writes);
        are_bytes =
            (omega arith, All-append IsByte _ _ a.are_bytes (All-append IsByte _ _ n.are_bytes tt));
        reads =
            Reads-bind _ (read_uint8_enum-Reads principal_id _ 3 _ refl)
              (Reads-bind _ a.reads (Reads-bind _ n.reads (Reads-pure (contract address name))));
      }
