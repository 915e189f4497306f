-- ===== src/Tests/SignTransactions.antt =====
-- Transactions whose origin is one key, and two of three keys.
use funai_sdk.Prelude.{ℕ, ◌≡◌, refl, [], ◌∷◌, ◌++◌, List, replicate, arith}
use funai_sdk.Prelude.Int.{pos}
use funai_sdk.Js.Text.{JsString}
use funai_sdk.Js.Number.{int}
use funai_sdk.Js.Result.{ok}
use funai_sdk.Bytes.Hex.{Bytes, bytes_to_hex, hexes}
use funai_sdk.Bytes.HexLaws.{hex_to_bytes-bytes_to_hex}
use funai_sdk.Platform.Sample.{sample_platform, sample_platform-PlatformLaws}
use funai_sdk.Wire.HexText.{IsHex}
use funai_sdk.Auth.Types.{
  compressed, p2pkh, p2sh, SingleSig, MultiSig, SpendingCondition, single, multi, standard_auth,
  empty_message_signature,
}
use funai_sdk.Auth.Valid.{IsUint64, IsAuthorization, any_uncompressed, count_signatures}
use funai_sdk.Auth.Authorization.{into_initial_sighash_auth, clear_condition}
use funai_sdk.Transaction.Types.{FunaiTransactionWire}
use funai_sdk.Reader.RoundTrips.{RoundTrips}
use funai_sdk.Transaction.Wire.{serialize_transaction_bytes, deserialize_transaction}
use funai_sdk.Transaction.RoundTrip.{canonical_transaction, transaction-RoundTrips}
use funai_sdk.Signing.Keys.{
  key_text, key_data, ends_in_one, private_key_to_bytes, private_key_is_compressed,
}
use funai_sdk.Signing.Hashes.{hash160, hash_p2pkh, txid_from_data}
use funai_sdk.Signing.Laws.{IsKeyPair}
use funai_sdk.Signing.Transaction.{txid_payload, txid, sign_begin}
use funai_sdk.Tests.AuthData.{sample_curve, sample_transaction, sample_transaction-IsTransaction}
use funai_sdk.Tests.SignData.{sample_crypto}

abbrev pub secret : ℕ → Bytes
secret n = replicate 32 n ++ (1 ∷ [])

abbrev pub secret_text : ℕ → JsString
secret_text n = bytes_to_hex (secret n)

abbrev pub public_of : ℕ → Bytes
public_of n = 2 ∷ replicate 32 n

pub five-IsKeyPair : IsKeyPair sample_crypto (key_text (secret_text 5)) (public_of 5)
unfolding private_key_to_bytes key_data ends_in_one private_key_is_compressed bytes_to_hex hexes
five-IsKeyPair = record {
  key = secret 5;
  reads = rw (hex_to_bytes-bytes_to_hex (secret 5) (omega arith)) refl;
  form = refl;
  makes = refl;
}

pub six-IsKeyPair : IsKeyPair sample_crypto (key_text (secret_text 6)) (public_of 6)
unfolding private_key_to_bytes key_data ends_in_one private_key_is_compressed bytes_to_hex hexes
six-IsKeyPair = record {
  key = secret 6;
  reads = rw (hex_to_bytes-bytes_to_hex (secret 6) (omega arith)) refl;
  form = refl;
  makes = refl;
}

pub nine-IsUint64 : IsUint64 (pos 9)
nine-IsUint64 = record { value = 9; small = omega arith; value_is = refl }

zero-IsUint64 : IsUint64 (pos 0)
zero-IsUint64 = record { value = 0; small = omega arith; value_is = refl }

-- `createSingleSigSpendingCondition(P2PKH, publicKey, 9, 9)`
abbrev pub one_key : SingleSig
one_key = record {
  hash_mode = p2pkh;
  signer = hash_p2pkh sample_crypto (public_of 5);
  nonce = pos 9;
  fee = pos 9;
  key_encoding = compressed;
  signature_text = empty_message_signature;
}

-- `createMultiSigSpendingCondition(P2SH, 2, publicKeys, 9, 9)`
abbrev pub three_keys : List Bytes
three_keys = public_of 5 ∷ public_of 8 ∷ public_of 6 ∷ []

abbrev pub two_of_three : MultiSig
two_of_three = record {
  hash_mode = p2sh;
  signer = bytes_to_hex (32 ∷ replicate 19 7);
  nonce = pos 9;
  fee = pos 9;
  fields = [];
  signatures_required = int (pos 2);
}

abbrev pub tx_with : SpendingCondition → FunaiTransactionWire
tx_with c = record sample_transaction { auth = standard_auth c }

empty-IsHex : IsHex 65 empty_message_signature
unfolding empty_message_signature
empty-IsHex = record {
  data_bytes = replicate 65 0;
  are_bytes = omega arith;
  size_is = refl;
  text_is = refl;
}

pub one_key-IsAuthorization :
    IsAuthorization sample_curve (into_initial_sighash_auth (standard_auth (single one_key)))
unfolding into_initial_sighash_auth clear_condition hash_p2pkh hash160
one_key-IsAuthorization = record {
  signer = record {
    data_bytes = 32 ∷ replicate 19 7;
    are_bytes = omega arith;
    size_is = refl;
    text_is = refl;
  };
  nonce = zero-IsUint64;
  fee = zero-IsUint64;
  encoding = tt;
  signed = empty-IsHex;
}

pub two_of_three-IsAuthorization :
    IsAuthorization sample_curve (into_initial_sighash_auth (standard_auth (multi two_of_three)))
unfolding into_initial_sighash_auth clear_condition count_signatures any_uncompressed
two_of_three-IsAuthorization = record {
  signer = record {
    data_bytes = 32 ∷ replicate 19 7;
    are_bytes = omega arith;
    size_is = refl;
    text_is = refl;
  };
  nonce = zero-IsUint64;
  fee = zero-IsUint64;
  fields = tt;
  few_fields = omega arith;
  few_signatures = omega arith;
  keys_allowed = refl;
  required = 2;
  required_small = omega arith;
  required_is = refl;
}

-- The transaction whose hash is signed first.
cleared : SpendingCondition → FunaiTransactionWire
cleared c = record sample_transaction { auth = into_initial_sighash_auth (standard_auth c) }

serialized :
    (c : SpendingCondition)
    → IsAuthorization sample_curve (into_initial_sighash_auth (standard_auth c))
    → RoundTrips
        (serialize_transaction_bytes sample_platform sample_curve (cleared c))
        (deserialize_transaction sample_platform sample_curve)
        (canonical_transaction sample_platform (cleared c))
unfolding cleared
serialized c h =
    let t = sample_transaction-IsTransaction in
    transaction-RoundTrips sample_platform sample_platform-PlatformLaws sample_curve (cleared c)
      (record {
        chain = t.chain;
        chain_small = t.chain_small;
        chain_is = t.chain_is;
        auth = h;
        post_conditions = t.post_conditions;
        few_conditions = t.few_conditions;
        payload = t.payload;
      })

pub first_hash_of :
    (c : SpendingCondition)
    → IsAuthorization sample_curve (into_initial_sighash_auth (standard_auth c))
    → JsString
first_hash_of c h = txid_from_data sample_crypto ((serialized c h).wire)

sign_begin_lem :
    (c : SpendingCondition)
    (h : IsAuthorization sample_curve (into_initial_sighash_auth (standard_auth c)))
    → sign_begin sample_platform sample_curve sample_crypto (tx_with c) ≡ ok (first_hash_of c h)
unfolding sign_begin txid txid_payload first_hash_of cleared
sign_begin_lem c h = rw ((serialized c h).writes) refl

abbrev pub one_key_hash : JsString
one_key_hash = first_hash_of (single one_key) one_key-IsAuthorization

pub one_key-begins :
    sign_begin sample_platform sample_curve sample_crypto (tx_with (single one_key))
    ≡ ok one_key_hash
one_key-begins = sign_begin_lem (single one_key) one_key-IsAuthorization

abbrev pub two_of_three_hash : JsString
two_of_three_hash = first_hash_of (multi two_of_three) two_of_three-IsAuthorization

pub two_of_three-begins :
    sign_begin sample_platform sample_curve sample_crypto (tx_with (multi two_of_three))
    ≡ ok two_of_three_hash
two_of_three-begins = sign_begin_lem (multi two_of_three) two_of_three-IsAuthorization
