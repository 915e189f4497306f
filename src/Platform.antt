-- ===== src/Platform.antt =====
-- What the program calls and does not implement: `TextEncoder` and `TextDecoder` (UTF-8),
-- `String.prototype.localeCompare`, and `c32address` and `c32addressDecode` of the package
-- c32check. Definitions take a `Platform`; theorems take the documented laws, `PlatformLaws`.
use funai_sdk.Prelude.{
  ℕ, ◌<◌, ◌≤◌, ◌≡◌, Bool, true, false, ◌&&◌, not, List, [], ◌∷◌, ◌++◌, leb, ◌==◌, length, All,
  replicate, refl, arith, zero, suc,
}
use funai_sdk.Prelude.Int.{pos}
use funai_sdk.Js.Text.{JsString, includes}
use funai_sdk.Js.Number.{Number, int}
use funai_sdk.Js.Result.{Result, ok}
use funai_sdk.Bytes.Hex.{Bytes, IsByte, bytes_to_hex}
pub mod Sample

abbrev pub is_high_surrogate : ℕ → Bool
is_high_surrogate c = leb 0xd800 c && leb c 0xdbff

abbrev pub is_low_surrogate : ℕ → Bool
is_low_surrogate c = leb 0xdc00 c && leb c 0xdfff

-- Surrogates stand in pairs; the flag says that the second of a pair comes next.
unfoldable pub scalar_from : Bool → JsString → Bool
scalar_from pending [] = not pending
scalar_from false (c ∷ cs) =
    leb c 0xffff && not (is_low_surrogate c) && scalar_from (is_high_surrogate c) cs
scalar_from true (c ∷ cs) = is_low_surrogate c && scalar_from false cs

-- `TextDecoder` drops a byte order mark in front.
unfoldable pub starts_plain : JsString → Bool
starts_plain [] = true
starts_plain (c ∷ cs) = not (c == 0xfeff)

-- The texts that UTF-8 encodes without loss.
pub record IsScalarText (s : JsString) : Type 0 where
  pub paired : scalar_from false s ≡ true
  pub plain : starts_plain s ≡ true

abbrev pub IsAscii : ℕ → Type 0
IsAscii c = c < 128

-- The 40 hex digits of 20 bytes.
pub record IsHash160 (h : JsString) : Type 0 where
  pub data_bytes : Bytes
  pub are_bytes : All IsByte data_bytes
  pub twenty : length data_bytes ≡ 20
  pub text : h ≡ bytes_to_hex data_bytes

pub record Platform : Type 0 where
  -- `new TextEncoder().encode(s)` and `new TextDecoder().decode(bytes)`
  pub utf8_to_bytes : JsString → Bytes
  pub bytes_to_utf8 : Bytes → JsString
  -- `a.localeCompare(b) <= 0`
  pub locale_le : JsString → JsString → Bool
  pub c32_address : Number → JsString → Result JsString
  pub c32_address_decode : JsString → Result (Number × JsString)

-- What is known of the address text of a version and a hash.
pub record IsAddressOf (p : Platform) (version : ℕ) (hash160 : JsString) (s : JsString)
    : Type 0 where
  pub decodes : p.c32_address_decode s ≡ ok (int (pos version), hash160)
  pub no_dot : includes b'.' s ≡ false
  pub nonempty : 0 < length s

-- UTF-8 gives bytes, keeps ASCII, and is undone on texts without lone surrogates and byte order
-- mark. The address of a version of five bits and of 20 bytes consists of letters and digits, and
-- is decoded to them.
pub record PlatformLaws (p : Platform) : Type 0 where
  pub encode-IsByte : (s : JsString) → All IsByte (p.utf8_to_bytes s)
  pub encode_ascii : (s : JsString) → All IsAscii s → p.utf8_to_bytes s ≡ s
  pub encode-append :
      (s t : JsString)
      → IsScalarText s
      → All IsAscii t
      → p.utf8_to_bytes (s ++ t) ≡ p.utf8_to_bytes s ++ t
  pub decode-encode : (s : JsString) → IsScalarText s → p.bytes_to_utf8 (p.utf8_to_bytes s) ≡ s
  pub address :
      (version : ℕ) (hash160 s : JsString)
      → version < 32
      → IsHash160 hash160
      → p.c32_address (int (pos version)) hash160 ≡ ok s
      → IsAddressOf p version hash160 s

scalar_from-append_ascii :
    (b : Bool) (s t : JsString)
    → scalar_from b s ≡ true
    → All IsAscii t
    → scalar_from b (s ++ t) ≡ true
unfolding scalar_from
scalar_from-append_ascii true [] t h a = cc
scalar_from-append_ascii false [] [] h a = refl
scalar_from-append_ascii false [] (c ∷ t) h (ac, at') =
    ground (arith, scalar_from-append_ascii false [] t refl at')
scalar_from-append_ascii true (c ∷ s) t h a = ground (arith, scalar_from-append_ascii false s t)
scalar_from-append_ascii false (c ∷ s) t h a =
    ground (arith, scalar_from-append_ascii (is_high_surrogate c) s t)

starts_plain-append_ascii :
    (s t : JsString) → starts_plain s ≡ true → All IsAscii t → starts_plain (s ++ t) ≡ true
unfolding starts_plain
starts_plain-append_ascii [] [] h a = refl
starts_plain-append_ascii [] (c ∷ t) h (ac, at') = ground arith
starts_plain-append_ascii (c ∷ s) t h a = h

-- ASCII text behind a text that UTF-8 encodes keeps it so.
pub IsScalarText-append_ascii :
    (s t : JsString) → IsScalarText s → All IsAscii t → IsScalarText (s ++ t)
IsScalarText-append_ascii s t h a = record {
  paired = scalar_from-append_ascii false s t h.paired a;
  plain = starts_plain-append_ascii s t h.plain a;
}

pub IsScalarText-ascii : (t : JsString) → All IsAscii t → IsScalarText t
IsScalarText-ascii t a =
    IsScalarText-append_ascii [] t
      (record { paired = unfold scalar_from in refl; plain = unfold starts_plain in refl }) a
