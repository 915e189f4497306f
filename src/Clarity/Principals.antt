-- ===== src/Clarity/Principals.antt =====
-- Principals: what is written reads back.
use funai_sdk.Prelude.{◌≡◌, refl, [], ◌++◌, length, All-append, arith, leb, false}
use funai_sdk.Prelude.Int.{pos}
use funai_sdk.Js.Text.{JsString}
use funai_sdk.Js.Number.{int}
use funai_sdk.Js.Result.{ok}
use funai_sdk.Bytes.Hex.{IsByte, concat_array, part_bytes}
use funai_sdk.Platform.{Platform, PlatformLaws, IsAddressOf}
use funai_sdk.Reader.Reads.{Reads-bind, Reads-last, Reads-lift}
use funai_sdk.Reader.RoundTrips.{RoundTrips}
use funai_sdk.Wire.Types.{AddressWire}
use funai_sdk.Wire.Create.{create_address, address_to_string}
use funai_sdk.Wire.Write.{serialize_address_bytes}
use funai_sdk.Wire.Read.{deserialize_address}
use funai_sdk.Wire.Strings.{name_of, create_lp_string-fits}
use funai_sdk.Wire.RoundTrip.{address-RoundTrips, name-RoundTrips}
use funai_sdk.Clarity.Types.{principal_standard, principal_contract, wire_type}
use funai_sdk.Clarity.Names.{parse_contract_id-parts}
use funai_sdk.Clarity.Create.{
  standard_principal_cv_from_address, contract_principal_cv_from_address,
}
use funai_sdk.Clarity.Serialize.{
  serialize_cv_bytes, serialize_standard_principal, serialize_contract_principal,
}
use funai_sdk.Clarity.Deserialize.{deserialize_as}
use funai_sdk.Clarity.Valid.{IsStandard, IsContract, canonical, depth}
use funai_sdk.Clarity.Tagged.{CvRoundTrips, tagged-CvRoundTrips}

module _ (env : Platform) (laws : PlatformLaws env) where
  address_of : (value : JsString) → IsStandard env value → AddressWire
  address_of value v = record { version = int (pos v.version); hash160 = v.hash160 }

  address_of-RoundTrips :
      (value : JsString) (v : IsStandard env value)
      → RoundTrips
          (serialize_address_bytes (address_of value v))
          deserialize_address
          (address_of value v)
  unfolding address_of
  address_of-RoundTrips value v =
      address-RoundTrips (record { version = int (pos v.version); hash160 = v.hash160 })
        (record {
          version = v.version;
          version_byte = omega (arith, v.five_bits);
          same_version = refl;
          hash = v.hash;
        })

  known : (value : JsString) (v : IsStandard env value) → IsAddressOf env v.version v.hash160 value
  known value v = laws.address v.version v.hash160 value v.five_bits v.hash v.encodes

  create_address-IsStandard :
      (value : JsString) (v : IsStandard env value)
      → create_address env value ≡ ok (address_of value v)
  unfolding create_address address_of
  create_address-IsStandard value v = rw ((known value v).decodes)

  address_to_string-IsStandard :
      (value : JsString) (v : IsStandard env value)
      → address_to_string env (address_of value v) ≡ ok value
  unfolding address_to_string address_of
  address_to_string-IsStandard value v = v.encodes

  pub standard-CvRoundTrips :
      (value : JsString) → IsStandard env value → CvRoundTrips env (principal_standard value)
  unfolding serialize_cv_bytes serialize_standard_principal deserialize_as canonical depth wire_type
      standard_principal_cv_from_address
  standard-CvRoundTrips value v =
      let a = address_of-RoundTrips value v in
      tagged-CvRoundTrips env (principal_standard value) 0x05 _ a.wire (omega arith) refl
        (rw (create_address-IsStandard value v) (rw a.writes)) a.are_bytes (omega arith)
        (λ f _. Reads-last _ a.reads (Reads-lift (rw (address_to_string-IsStandard value v))))

  pub contract-CvRoundTrips :
      (value : JsString) → IsContract env value → CvRoundTrips env (principal_contract value)
  unfolding serialize_cv_bytes serialize_contract_principal deserialize_as canonical depth wire_type
      contract_principal_cv_from_address concat_array part_bytes
  contract-CvRoundTrips value v =
      let k = known v.address v.standard in
      let a = address_of-RoundTrips v.address v.standard in
      let n = name-RoundTrips env laws (name_of v.name) (record {
        scalar = v.scalar;
        fits = omega (arith, v.fits);
        same_prefix = refl;
        same_max = refl;
      }) in
      let short : leb 128 (length (env.utf8_to_bytes v.name)) ≡ false = ground (arith, v.fits) in
      let parsed =
        parse_contract_id-parts v.address v.name k.no_dot v.no_dot k.nonempty v.nonempty in
      tagged-CvRoundTrips env (principal_contract value) 0x06 _ (a.wire ++ (n.wire ++ []))
        (omega arith) refl
        (rw (v.text) (
          rw parsed (
            rw (create_address-IsStandard v.address v.standard) (
              rw a.writes
                (rw (create_lp_string-fits env v.name (omega (arith, v.fits))) (rw n.writes))))))
        (All-append IsByte _ _ a.are_bytes (All-append IsByte _ _ n.are_bytes tt)) (omega arith)
        (λ f _. Reads-bind _ a.reads (
          Reads-bind _ n.reads (
            Reads-lift
              (rw short (rw (address_to_string-IsStandard v.address v.standard) (rw (v.text)))))))
