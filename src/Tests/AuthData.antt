-- ===== src/Tests/AuthData.antt =====
-- Concrete authorizations.
use funai_sdk.Prelude.{refl, [], ◌∷◌, replicate, All, arith}
use funai_sdk.Prelude.Int.{pos}
use funai_sdk.Js.Text.{JsString}
use funai_sdk.Js.Number.{int}
use funai_sdk.Bytes.Hex.{bytes_to_hex}
use funai_sdk.Prelude.{List}
use funai_sdk.Js.Result.{ok}
use funai_sdk.Bytes.Hex.{hexes}
use funai_sdk.Wire.HexText.{IsHex}
use funai_sdk.Auth.Types.{
  Curve, compressed, TransactionAuthField, public_key, signature, MultiSig, SingleSig, p2sh, p2pkh,
  single, multi, Authorization, sponsored_auth, public_key_is_compressed, starts_with_04,
}
use funai_sdk.Auth.Spending.{is_segwit, is_uncompressed}
use funai_sdk.Auth.FieldLaws.{IsField}
use funai_sdk.Auth.Valid.{
  IsMultiSig, IsSingleSig, IsAuthorization, any_uncompressed, count_signatures,
  contents_uncompressed, contents_count,
}
use funai_sdk.Tests.Data.{hash_bytes, hash_text}
use funai_sdk.Platform.Sample.{sample_platform}
use funai_sdk.Tests.Data.{sends_pair, sends_pair-IsPostCondition, call, call-IsPayload}
use funai_sdk.Transaction.Types.{FunaiTransactionWire, testnet, any, deny}
use funai_sdk.Transaction.RoundTrip.{IsTransaction}

-- A curve on which every key is its own compressed form.
abbrev pub sample_curve : Curve
sample_curve = record { point_hex = λ short text. ok text }

abbrev pub signature_text : JsString
signature_text = bytes_to_hex (replicate 65 9)

pub signature_text-IsHex : IsHex 65 signature_text
signature_text-IsHex = record {
  data_bytes = replicate 65 9;
  are_bytes = omega arith;
  size_is = refl;
  text_is = refl;
}

hash_text-IsHex : IsHex 20 hash_text
hash_text-IsHex = record {
  data_bytes = hash_bytes;
  are_bytes = omega arith;
  size_is = refl;
  text_is = refl;
}

abbrev pub signed_field : TransactionAuthField
signed_field = record { pub_key_encoding = compressed; contents = signature signature_text }

-- One key has signed, the other has not.
abbrev pub two_fields : List TransactionAuthField
two_fields =
    record { pub_key_encoding = compressed; contents = public_key (2 ∷ replicate 32 5) }
    ∷ signed_field
    ∷ []

two_fields-IsField : All (IsField sample_curve) two_fields
two_fields-IsField = (
  record {
    short = record {
      first = 2;
      rest = replicate 32 5;
      key_is = refl;
      first_byte = omega arith;
      not_four = refl;
      rest_bytes = omega arith;
      size_is = refl;
    };
    same = refl;
  },
  (signature_text-IsHex, tt),
)

abbrev pub origin_condition : MultiSig
origin_condition = record {
  hash_mode = p2sh;
  signer = hash_text;
  nonce = pos 3;
  fee = pos 0;
  fields = two_fields;
  signatures_required = int (pos 2);
}

origin_condition-IsMultiSig : IsMultiSig sample_curve origin_condition
unfolding any_uncompressed count_signatures contents_uncompressed contents_count is_segwit
    is_uncompressed public_key_is_compressed starts_with_04 bytes_to_hex hexes
origin_condition-IsMultiSig = record {
  signer = hash_text-IsHex;
  nonce = record { value = 3; small = omega arith; value_is = refl };
  fee = record { value = 0; small = omega arith; value_is = refl };
  fields = two_fields-IsField;
  few_fields = omega arith;
  few_signatures = omega arith;
  keys_allowed = refl;
  required = 2;
  required_small = omega arith;
  required_is = refl;
}

abbrev pub sponsor_condition : SingleSig
sponsor_condition = record {
  hash_mode = p2pkh;
  signer = hash_text;
  nonce = pos 7;
  fee = pos 1000;
  key_encoding = compressed;
  signature_text = signature_text;
}

sponsor_condition-IsSingleSig : IsSingleSig sponsor_condition
sponsor_condition-IsSingleSig = record {
  signer = hash_text-IsHex;
  nonce = record { value = 7; small = omega arith; value_is = refl };
  fee = record { value = 1000; small = omega arith; value_is = refl };
  encoding = tt;
  signed = signature_text-IsHex;
}

abbrev pub sponsored : Authorization
sponsored = sponsored_auth (multi origin_condition) (single sponsor_condition)

pub sponsored-IsAuthorization : IsAuthorization sample_curve sponsored
sponsored-IsAuthorization = (origin_condition-IsMultiSig, sponsor_condition-IsSingleSig)

abbrev pub sample_transaction : FunaiTransactionWire
sample_transaction = record {
  transaction_version = testnet;
  chain_id = int (pos 0x8000_0000);
  auth = sponsored;
  anchor_mode = any;
  post_condition_mode = deny;
  post_conditions = sends_pair ∷ [];
  payload = call;
}

pub sample_transaction-IsTransaction : IsTransaction sample_platform sample_curve sample_transaction
sample_transaction-IsTransaction = record {
  chain = 0x8000_0000;
  chain_small = omega arith;
  chain_is = refl;
  auth = sponsored-IsAuthorization;
  post_conditions = (sends_pair-IsPostCondition, tt);
  few_conditions = omega arith;
  payload = call-IsPayload;
}
