-- ===== src/Clarity/Terminates.antt =====
-- `deserializeCV` returns or throws on every source: the fuel of the model is always enough.
use funai_sdk.Prelude.{
  ℕ, zero, suc, leb, ◌≤◌, ◌≢◌, refl, subst, Bool-cases, inl, inr, List, [], length, All, arith,
}
use funai_sdk.Prelude.Int.{pos, negsuc}
use funai_sdk.Js.Text.{JsString}
use funai_sdk.Js.Number.{Number, nan, int}
use funai_sdk.Js.Result
use funai_sdk.Js.Result.{Result, out_of_fuel, err, ok, unknown_clarity_type, bigint_syntax}
use funai_sdk.Bytes.Hex.{Bytes, IsByte}
use funai_sdk.Platform.{Platform}
use funai_sdk.Reader.{BytesReader, Reader, pure, lift, ◌>>=◌, read_bytes}
use funai_sdk.Reader.Cursor.{
  IsCount, IsForward, left, remaining, Ends, AlwaysEnds, Defined, Takes, AlwaysEnds-pure,
  AlwaysEnds-lift, AlwaysEnds-bind, read_bytes-AlwaysEnds, read_uint32-AlwaysEnds,
  read_uint8_enum-Takes,
}
use funai_sdk.Wire.Types.{AddressWire, LengthPrefixedStringWire}
use funai_sdk.Wire.Create.{address_to_string}
use funai_sdk.Clarity.Types.{
  ClarityValue, ClarityWireType, int_type, uint_type, buffer_type, true_type, false_type,
  address_type, contract_type, ok_type, err_type, none_type, some_type, list_type, tuple_type,
  ascii_type, utf8_type, wire_type,
}
use funai_sdk.Clarity.Create.{
  standard_principal_cv_from_address, contract_principal_cv_from_address,
}
use funai_sdk.Clarity.Deserialize.{
  rounds, read_values, read_entries, deserialize_as, deserialize_cv_fuel, deserialize_cv,
}
use funai_sdk.Clarity.Ends.{
  Anything, Defined-bind, int_cv_from_bytes-Defined, uint_cv_from_bytes-Defined, buffer_cv-Defined,
  tuple_cv-Defined, deserialize_lp_string-AlwaysEnds, deserialize_address-AlwaysEnds,
}

-- `c32address` returns or throws.
pub record C32Ends (env : Platform) : Type 0 where
  pub c32_ends :
      (version : Number) (hash160 : JsString) → env.c32_address version hash160 ≢ out_of_fuel

≢-Defined {ℓ} : {A : Type ℓ} (m : Result A) → m ≢ out_of_fuel → Defined Anything m
≢-Defined out_of_fuel h = elim (h refl) [ ]
≢-Defined (err e) h = tt
≢-Defined (ok a) h = tt

module _ (env : Platform) (ends : C32Ends env) (self : Reader ClarityValue) (n : ℕ)
    (self-AlwaysEnds : AlwaysEnds Anything n self) where
  address-Defined : (a : AddressWire) → Defined Anything (standard_principal_cv_from_address env a)
  unfolding standard_principal_cv_from_address address_to_string
  address-Defined a =
      Defined-bind (env.c32_address a.version a.hash160) _
        (≢-Defined _ (ends.c32_ends a.version a.hash160)) (λ s. tt)

  contract-Defined :
      (a : AddressWire) (name : LengthPrefixedStringWire)
      → Defined Anything (contract_principal_cv_from_address env a name)
  unfolding contract_principal_cv_from_address address_to_string
  contract-Defined a name = elim (Bool-cases (leb 128 (length (env.utf8_to_bytes name.content)))) [
    | inl h ↦ rw h tt
    | inr h ↦ rw h (
        Defined-bind (env.c32_address a.version a.hash160) _
          (≢-Defined _ (ends.c32_ends a.version a.hash160)) (λ s. tt))
  ]

  read_values-AlwaysEnds : (k : ℕ) → AlwaysEnds Anything n (read_values env self k)
  unfolding read_values
  read_values-AlwaysEnds zero = AlwaysEnds-pure Anything n _ tt
  read_values-AlwaysEnds (suc k) = AlwaysEnds-bind Anything Anything n _ _ self-AlwaysEnds (λ v hv.
      AlwaysEnds-bind Anything Anything n _ _ (read_values-AlwaysEnds k)
        (λ vs hvs. AlwaysEnds-pure Anything n _ tt))

  read_entries-AlwaysEnds :
      (k : ℕ) (data' : List (JsString × ClarityValue))
      → AlwaysEnds Anything n (read_entries env self k data')
  unfolding read_entries
  read_entries-AlwaysEnds zero data' = AlwaysEnds-pure Anything n _ tt
  read_entries-AlwaysEnds (suc k) data' =
      AlwaysEnds-bind Anything Anything n _ _ (deserialize_lp_string-AlwaysEnds env n) (λ s hs.
        AlwaysEnds-bind Anything Anything n _ _ self-AlwaysEnds
          (λ v hv. read_entries-AlwaysEnds k _))

  one-AlwaysEnds :
      (f : ClarityValue → ClarityValue) → AlwaysEnds Anything n (self >>= λ v. pure (f v))
  one-AlwaysEnds f =
      AlwaysEnds-bind Anything Anything n _ _ self-AlwaysEnds
        (λ v hv. AlwaysEnds-pure Anything n _ tt)

  bytes-AlwaysEnds {ℓ} :
      {A : Type ℓ} (count : Number) (f : Bytes → Result A)
      → IsCount count
      → ((bs : Bytes) → Defined Anything (f bs))
      → AlwaysEnds Anything n (read_bytes count >>= λ bs. lift (f bs))
  bytes-AlwaysEnds count f c h =
      AlwaysEnds-bind (All IsByte) Anything n _ _ (read_bytes-AlwaysEnds n count c)
        (λ bs hb. AlwaysEnds-lift Anything n _ (h bs))

  deserialize_as-AlwaysEnds :
      (type : ClarityWireType) → AlwaysEnds Anything n (deserialize_as env self type)
  unfolding deserialize_as
  deserialize_as-AlwaysEnds int_type = bytes-AlwaysEnds _ _ tt int_cv_from_bytes-Defined
  deserialize_as-AlwaysEnds uint_type = bytes-AlwaysEnds _ _ tt uint_cv_from_bytes-Defined
  deserialize_as-AlwaysEnds buffer_type =
      AlwaysEnds-bind IsCount Anything n _ _ (read_uint32-AlwaysEnds n)
        (λ count c. bytes-AlwaysEnds count _ c buffer_cv-Defined)
  deserialize_as-AlwaysEnds true_type = AlwaysEnds-pure Anything n _ tt
  deserialize_as-AlwaysEnds false_type = AlwaysEnds-pure Anything n _ tt
  deserialize_as-AlwaysEnds address_type =
      AlwaysEnds-bind Anything Anything n _ _ (deserialize_address-AlwaysEnds n)
        (λ a ha. AlwaysEnds-lift Anything n _ (address-Defined a))
  deserialize_as-AlwaysEnds contract_type =
      AlwaysEnds-bind Anything Anything n _ _ (deserialize_address-AlwaysEnds n) (λ a ha.
        AlwaysEnds-bind Anything Anything n _ _ (deserialize_lp_string-AlwaysEnds env n)
          (λ s hs. AlwaysEnds-lift Anything n _ (contract-Defined a s)))
  deserialize_as-AlwaysEnds ok_type = one-AlwaysEnds _
  deserialize_as-AlwaysEnds err_type = one-AlwaysEnds _
  deserialize_as-AlwaysEnds none_type = AlwaysEnds-pure Anything n _ tt
  deserialize_as-AlwaysEnds some_type = one-AlwaysEnds _
  deserialize_as-AlwaysEnds list_type =
      AlwaysEnds-bind IsCount Anything n _ _ (read_uint32-AlwaysEnds n) (λ count c.
        AlwaysEnds-bind Anything Anything n _ _ (read_values-AlwaysEnds (rounds count))
          (λ vs hvs. AlwaysEnds-pure Anything n _ tt))
  deserialize_as-AlwaysEnds tuple_type =
      AlwaysEnds-bind IsCount Anything n _ _ (read_uint32-AlwaysEnds n) (λ count c.
        AlwaysEnds-bind Anything Anything n _ _ (read_entries-AlwaysEnds (rounds count) [])
          (λ vs hvs. AlwaysEnds-lift Anything n _ (tuple_cv-Defined vs)))
  deserialize_as-AlwaysEnds ascii_type =
      AlwaysEnds-bind IsCount Anything n _ _ (read_uint32-AlwaysEnds n) (λ count c.
        AlwaysEnds-bind (All IsByte) Anything n _ _ (read_bytes-AlwaysEnds n count c)
          (λ bs hb. AlwaysEnds-pure Anything n _ tt))
  deserialize_as-AlwaysEnds utf8_type =
      AlwaysEnds-bind IsCount Anything n _ _ (read_uint32-AlwaysEnds n) (λ count c.
        AlwaysEnds-bind (All IsByte) Anything n _ _ (read_bytes-AlwaysEnds n count c)
          (λ bs hb. AlwaysEnds-pure Anything n _ tt))

left_le : (size : ℕ) (n : Number) → left size n ≤ size
left_le size nan = omega arith
left_le size (int (pos k)) = omega arith
left_le size (int (negsuc k)) = omega arith

Ends-more {ℓ} :
    {A : Type ℓ} (n : ℕ) (m : Result (A × BytesReader))
    → Ends Anything n m
    → Ends Anything (suc n) m
Ends-more n out_of_fuel h = elim h [ ]
Ends-more n (err e) h = tt
Ends-more n (ok (a, r)) (q, (forward, few)) = (tt, (forward, omega (arith, few)))

module _ (env : Platform) (ends : C32Ends env) where
  -- What follows the type byte, with a unit of fuel for each byte that is left.
  Ends-taken :
      (n fuel : ℕ) (r : BytesReader) (m : Result (ClarityWireType × BytesReader))
      → AlwaysEnds Anything n (deserialize_cv_fuel env fuel)
      → remaining r ≤ suc n
      → Takes r m
      → Ends Anything
          (suc n)
          (Result.◌>>=◌ m (λ (type, r'). deserialize_as env (deserialize_cv_fuel env fuel) type r'))
  Ends-taken n fuel r out_of_fuel h few taken = elim taken [ ]
  Ends-taken n fuel r (err e) h few taken = tt
  Ends-taken n fuel r (ok (type, r')) h few (forward, less) = Ends-more n _ (
      deserialize_as-AlwaysEnds env ends (deserialize_cv_fuel env fuel) n h type r' forward
        (omega (arith, less, few)))

  -- Where nothing is left, there is no type byte.
  Ends-empty :
      (r : BytesReader) (m : Result (ClarityWireType × BytesReader))
      → remaining r ≤ 0
      → Takes r m
      → Ends Anything 0
          (Result.◌>>=◌ m (λ (type, r'). deserialize_as env (lift out_of_fuel) type r'))
  Ends-empty r out_of_fuel few taken = elim taken [ ]
  Ends-empty r (err e) few taken = tt
  Ends-empty r (ok (type, r')) few (forward, less) = absurd (omega (arith, less, few))

  fuel-AlwaysEnds : (n : ℕ) → AlwaysEnds Anything n (deserialize_cv_fuel env (suc n))
  unfolding deserialize_cv_fuel ◌>>=◌
  fuel-AlwaysEnds zero r forward few =
      Ends-empty r _ few (read_uint8_enum-Takes wire_type unknown_clarity_type r forward)
  fuel-AlwaysEnds (suc n) r forward few =
      Ends-taken n (suc n) r _ (fuel-AlwaysEnds n) few
        (read_uint8_enum-Takes wire_type unknown_clarity_type r forward)

  -- On every source of bytes, truncated or not, and at every cursor from 0 on or NaN,
  -- `deserializeCV` returns or throws, where `c32address` does: the fuel of the model is enough.
  pub deserialize_cv-ends : (r : BytesReader) → IsForward r → deserialize_cv env r ≢ out_of_fuel
  unfolding deserialize_cv
  deserialize_cv-ends r forward h =
      let size : ℕ = length r.source in
      let few : remaining r ≤ size = left_le size r.consumed in
      subst (Ends Anything size) h (fuel-AlwaysEnds size r forward few)
