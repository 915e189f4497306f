-- ===== src/Signing/Recovery.antt =====
-- A signature gives back the key that made it.
use funai_sdk.Prelude.{
  ℕ, ◌<◌, ◌≡◌, refl, ap, ◌∙◌, Bool, true, false, [], ◌∷◌, ◌++◌, ◌==◌, length, length-append, take,
  drop, take_front, drop_front, All, All-append, arith,
}
use funai_sdk.Prelude.Int.{pos}
use funai_sdk.Js.Text.{JsString}
use funai_sdk.Js.Number.{int}
use funai_sdk.Js.Result.{ok}
use funai_sdk.Bytes.Hex.{Bytes, IsByte, bytes_to_hex, hexes, hex_to_int}
use funai_sdk.Bytes.HexLaws.{hexes_lem, bytes_to_hex-append, length-bytes_to_hex}
use funai_sdk.Bytes.Ints.{int_to_hex, bytes_to_big_int}
use funai_sdk.Bytes.IntLaws.{be_value, bytes_to_big_int-be_value}
use funai_sdk.Bytes.ParseLaws.{hex_to_int-bytes_to_hex}
use funai_sdk.Wire.HexText.{IsHex}
use funai_sdk.Signing.Crypto.{Crypto}
use funai_sdk.Signing.Keys.{
  PrivateKey, private_key_is_compressed, private_key_to_bytes, recovery_hex, sign_with_key,
  parse_recoverable_signature_vrs, is_compressed_encoding, public_key_from_signature_vrs,
}
use funai_sdk.Signing.SigHash.{encoding_of}
use funai_sdk.Signing.Laws.{CryptoLaws, IsKeyPair}

is_compressed_encoding-encoding_of :
    (short : Bool) → is_compressed_encoding (encoding_of short) ≡ short
unfolding is_compressed_encoding encoding_of
is_compressed_encoding-encoding_of true = refl
is_compressed_encoding-encoding_of false = refl

-- The text of the id and of both coordinates is taken apart into them.
record Parsed (id : ℕ) (r s : Bytes) : Type 0 where
  id_text : hex_to_int (take 2 (bytes_to_hex (id ∷ (r ++ s)))) ≡ int (pos id)
  r_text : take 64 (drop 2 (bytes_to_hex (id ∷ (r ++ s)))) ≡ bytes_to_hex r
  s_text : drop 66 (bytes_to_hex (id ∷ (r ++ s))) ≡ bytes_to_hex s

take_exactly : (n : ℕ) (xs ys : JsString) → length xs ≡ n → take n (xs ++ ys) ≡ xs
take_exactly n xs ys h = rw (← h) (take_front xs ys)

drop_exactly : (n : ℕ) (xs ys : JsString) → length xs ≡ n → drop n (xs ++ ys) ≡ ys
drop_exactly n xs ys h = rw (← h) (drop_front xs ys)

parsed :
    (id : ℕ) (r s : Bytes) → id < 256 → All IsByte r → All IsByte s → length r ≡ 32 → Parsed id r s
unfolding bytes_to_hex
parsed id r s small hr hs size =
    let wide : length (bytes_to_hex r) ≡ 64 = omega (arith, length-bytes_to_hex r hr) in
    let byte = hex_to_int-bytes_to_hex (id ∷ []) (omega arith) (small, tt) in
    record {
      id_text = rw (hexes_lem id small) (
          rw (hexes_lem id small) at byte ∙ ap (λ n. int (pos n)) (unfold be_value in omega arith));
      r_text = rw (hexes_lem id small, bytes_to_hex-append r s) (take_exactly 64 _ _ wide);
      s_text = rw (hexes_lem id small, bytes_to_hex-append r s) (drop_exactly 64 _ _ wide);
    }

-- The key that a signature gives back.
key_of-signature :
    (crypto : Crypto) (message_hash : JsString) (id : ℕ) (r s : Bytes) (short : Bool)
    (public_key : Bytes)
    → id < 256
    → All IsByte r
    → All IsByte s
    → length r ≡ 32
    → length s ≡ 32
    → crypto.recover message_hash (be_value 0 r) (be_value 0 s) (int (pos id)) short
      ≡ ok (bytes_to_hex public_key)
    → public_key_from_signature_vrs crypto message_hash
        (bytes_to_hex (id ∷ (r ++ s)))
        (encoding_of short)
      ≡ ok (bytes_to_hex public_key)
unfolding public_key_from_signature_vrs parse_recoverable_signature_vrs bytes_to_big_int
key_of-signature crypto message_hash id r s short public_key small hr hs size_r size_s recovers =
    let p = parsed id r s small hr hs size_r in
    let bytes : All IsByte (id ∷ (r ++ s)) = (small, All-append IsByte r s hr hs) in
    let size : length (bytes_to_hex (id ∷ (r ++ s))) ≡ 130 =
      omega (arith, length-bytes_to_hex (id ∷ (r ++ s)) bytes, length-append r s) in
    let value_r = bytes_to_big_int-be_value r (omega arith) hr in
    let value_s = bytes_to_big_int-be_value s (omega arith) hs in
    rw size (
      rw (p.r_text, p.s_text, p.id_text)
        (rw (value_r, value_s) (rw (is_compressed_encoding-encoding_of short) recovers)))

-- Signing with the private key of a pair succeeds, and gives its public key back.
pub record Signed (crypto : Crypto) (message_hash : JsString) (private_key : PrivateKey)
    (short : Bool) (public_key : Bytes) : Type 0 where
  pub text : JsString
  pub signed : sign_with_key crypto private_key message_hash ≡ ok text
  pub text-IsHex : IsHex 65 text
  pub recovered :
      public_key_from_signature_vrs crypto message_hash text (encoding_of short)
      ≡ ok (bytes_to_hex public_key)

module _ (crypto : Crypto) (laws : CryptoLaws crypto) where
  -- The signature gives either form of the public key back.
  pub signed_form_lem :
      (message_hash : JsString) (private_key : PrivateKey) (key public_key : Bytes) (short : Bool)
      → IsHex 32 message_hash
      → private_key_to_bytes private_key ≡ ok key
      → crypto.get_public_key (take 32 key) short ≡ ok public_key
      → Signed crypto message_hash private_key short public_key
  unfolding sign_with_key recovery_hex
  signed_form_lem message_hash private_key key public_key short h key_reads makes =
      let s = laws.signs message_hash (take 32 key) public_key short h makes in
      record {
        text = bytes_to_hex (s.id ∷ (s.r_bytes ++ s.s_bytes));
        signed =
            rw key_reads
              (rw (s.signs) (rw (s.compact) (unfold int_to_hex bytes_to_hex hexes in refl)));
        text-IsHex = record {
          data_bytes = s.id ∷ (s.r_bytes ++ s.s_bytes);
          are_bytes =
              (omega (arith, s.small_id), All-append IsByte _ _ s.are_bytes_r s.are_bytes_s);
          size_is = omega (arith, length-append s.r_bytes s.s_bytes, s.size_r, s.size_s);
          text_is = refl;
        };
        recovered =
            key_of-signature crypto message_hash s.id s.r_bytes s.s_bytes short public_key
              (omega (arith, s.small_id)) s.are_bytes_r s.are_bytes_s s.size_r s.size_s s.recovers;
      }

  pub signed_lem :
      (message_hash : JsString) (private_key : PrivateKey) (public_key : Bytes)
      → IsHex 32 message_hash
      → IsKeyPair crypto private_key public_key
      → Signed crypto message_hash private_key (private_key_is_compressed private_key) public_key
  signed_lem message_hash private_key public_key h pair = rw (pair.form) (
      signed_form_lem message_hash private_key pair.key public_key (length pair.key == 33) h
        pair.reads pair.makes)
