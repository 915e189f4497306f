-- ===== src/Payload/RoundTrip.antt =====
-- Payloads: what is written reads back.
use funai_sdk.Prelude.{ℕ, ◌≡◌, refl}
use funai_sdk.Prelude.Int.{ℤ, pos, negsuc}
use funai_sdk.Js.Number.{Number, nan, int}
use funai_sdk.Platform.{Platform, PlatformLaws}
use funai_sdk.Reader.RoundTrips.{RoundTrips}
use funai_sdk.PostCondition.RoundTrip.{IsAmount}
use funai_sdk.Payload.Types.{
  PayloadWire, token_transfer, infer, register_model, contract_call, smart_contract,
  versioned_smart_contract, poison_microblock, coinbase, coinbase_to_alt_recipient,
  nakamoto_coinbase, tenure_change,
}
use funai_sdk.Payload.Write.{serialize_payload_bytes}
use funai_sdk.Payload.Read.{deserialize_payload}
use funai_sdk.Payload.Valid.{IsPayload, IsUint32, canonical_payload}
use funai_sdk.Payload.Transfers.{
  token_transfer-RoundTrips, register_model-RoundTrips, infer-RoundTrips,
}
use funai_sdk.Payload.Contracts.{
  contract_call-RoundTrips, smart_contract-RoundTrips, versioned_smart_contract-RoundTrips,
}
use funai_sdk.Payload.Blocks.{
  poison-RoundTrips, coinbase-RoundTrips, coinbase_to_alt_recipient-RoundTrips,
  nakamoto_coinbase-RoundTrips, tenure_change-RoundTrips,
}

IsAmount-pos : (n : ℤ) → IsAmount n → (k : ℕ) × (n ≡ pos k) × IsAmount (pos k)
IsAmount-pos (pos k) h = (k, refl, h)
IsAmount-pos (negsuc k) h = elim h [ ]

IsUint32-pos : (n : Number) → IsUint32 n → (k : ℕ) × (n ≡ int (pos k)) × IsUint32 (int (pos k))
IsUint32-pos nan h = elim h [ ]
IsUint32-pos (int (pos k)) h = (k, refl, h)
IsUint32-pos (int (negsuc k)) h = elim h [ ]

module _ (env : Platform) (laws : PlatformLaws env) where
  -- For a platform that keeps its laws and a valid payload of any type, `serializePayloadBytes`
  -- returns an array of bytes off which `deserializePayload` reads the payload back, its Clarity
  -- values in canonical form, and nothing more.
  pub payload-RoundTrips :
      (p : PayloadWire)
      → IsPayload env p
      → RoundTrips
          (serialize_payload_bytes env p)
          (deserialize_payload env)
          (canonical_payload env p)
  payload-RoundTrips (token_transfer recipient (pos n) memo) h =
      token_transfer-RoundTrips env laws recipient n memo h.0 h.1 h.2
  payload-RoundTrips (token_transfer recipient (negsuc n) memo) h = elim h.1 [ ]
  payload-RoundTrips (infer p) h =
      let (n, same, small) = IsAmount-pos p.amount h.amount in
      infer-RoundTrips env laws p n same small h
  payload-RoundTrips (register_model model_name model_params) h =
      register_model-RoundTrips env laws model_name model_params h.0 h.1
  payload-RoundTrips (contract_call p) h = contract_call-RoundTrips env laws p h
  payload-RoundTrips (smart_contract name code_body) h =
      smart_contract-RoundTrips env laws name code_body h.0 h.1
  payload-RoundTrips (versioned_smart_contract version name code_body) h =
      versioned_smart_contract-RoundTrips env laws version name code_body h.0 h.1
  payload-RoundTrips poison_microblock h = poison-RoundTrips env laws
  payload-RoundTrips (coinbase bs) h = coinbase-RoundTrips env laws bs h
  payload-RoundTrips (coinbase_to_alt_recipient bs recipient) h =
      coinbase_to_alt_recipient-RoundTrips env laws bs recipient h.0 h.1
  payload-RoundTrips (nakamoto_coinbase bs recipient vrf_proof) h =
      nakamoto_coinbase-RoundTrips env laws bs recipient vrf_proof h.0 h.1 h.2
  payload-RoundTrips (tenure_change p) h =
      let (n, same, small) = IsUint32-pos p.previous_tenure_blocks h.previous_tenure_blocks in
      tenure_change-RoundTrips env laws p n same small h
