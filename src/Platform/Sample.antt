-- ===== src/Platform/Sample.antt =====
-- A concrete platform, on which the laws hold: code units under 128 stand for themselves, others
-- for three bytes, and an address is a letter and the hash.
use funai_sdk.Prelude.{
  ℕ, zero, suc, ◌+◌, ◌-◌, ◌*◌, ◌/◌, ◌%◌, ◌<◌, ◌≡◌, refl, ap, ◌∙◌, Bool, true, false, [], ◌∷◌, ◌++◌,
  ◌==◌, ltb, if◌then◌else◌, arith, All, Bool-cases, inl, inr, lt→ltb, subst, All-append,
  append_assoc,
}
use funai_sdk.Prelude.Int.{pos, negsuc}
use funai_sdk.Js.Text.{JsString, includes}
use funai_sdk.Js.Number.{Number, nan, int, to_digit}
use funai_sdk.Js.Result.{Result, ok, err, out_of_fuel, invalid_c32}
use funai_sdk.Bytes.Hex.{Bytes, IsByte, bytes_to_hex}
use funai_sdk.Bytes.HexLaws.{hexes_lem}
use funai_sdk.Platform.{
  Platform, PlatformLaws, IsHash160, IsAddressOf, IsAscii, scalar_from, is_high_surrogate,
}

abbrev encode_unit : ℕ → Bytes
encode_unit c = if ltb c 128 then c ∷ [] else 255 ∷ (c / 256 % 256) ∷ (c % 256) ∷ []

abbrev encode : JsString → Bytes
encode [] = []
encode (c ∷ cs) = encode_unit c ++ encode cs

-- The state counts what follows an escape, and keeps the high byte.
abbrev decode_from : ℕ → ℕ → Bytes → JsString
decode_from mode high [] = []
decode_from zero high (c ∷ cs) =
    let rest = decode_from (if c == 255 then 1 else 0) 0 cs in if c == 255 then rest else c ∷ rest
decode_from (suc zero) high (c ∷ cs) = decode_from 2 c cs
decode_from (suc (suc mode)) high (c ∷ cs) = (high * 256 + c) ∷ decode_from 0 0 cs

abbrev c32_address : Number → JsString → Result JsString
c32_address nan h = err invalid_c32
c32_address (int (negsuc n)) h = err invalid_c32
c32_address (int (pos n)) h = ok ((65 + n) ∷ h)

abbrev c32_address_decode : JsString → Result (Number × JsString)
c32_address_decode [] = err invalid_c32
c32_address_decode (c ∷ h) = ok (int (pos (c - 65)), h)

abbrev locale_le : JsString → JsString → Bool
locale_le [] t = true
locale_le (c ∷ s) [] = false
locale_le (c ∷ s) (d ∷ t) = let rest = locale_le s t in if c == d then rest else ltb c d

abbrev pub sample_platform : Platform
sample_platform = record {
  utf8_to_bytes = encode;
  bytes_to_utf8 = decode_from 0 0;
  locale_le = locale_le;
  c32_address = c32_address;
  c32_address_decode = c32_address_decode;
}

encode_unit-IsByte : (c : ℕ) → All IsByte (encode_unit c)
encode_unit-IsByte c = elim (Bool-cases (ltb c 128)) [
  | inl h ↦ rw h (ground arith, tt)
  | inr h ↦ rw h (omega arith, (omega arith, (omega arith, tt)))
]

encode-IsByte : (s : JsString) → All IsByte (encode s)
encode-IsByte [] = tt
encode-IsByte (c ∷ cs) =
    All-append IsByte (encode_unit c) (encode cs) (encode_unit-IsByte c) (encode-IsByte cs)

encode_ascii : (s : JsString) → All IsAscii s → encode s ≡ s
encode_ascii [] h = refl
encode_ascii (c ∷ cs) (hc, hs) = rw (lt→ltb c 128 hc, encode_ascii cs hs) refl

encode-append : (s t : JsString) → encode (s ++ t) ≡ encode s ++ encode t
encode-append [] t = refl
encode-append (c ∷ cs) t =
    rw (encode-append cs t, append_assoc (encode_unit c) (encode cs) (encode t)) refl

single :
    (c : ℕ) (bs : Bytes) → (c == 255) ≡ false → decode_from 0 0 (c ∷ bs) ≡ c ∷ decode_from 0 0 bs
single c bs h = rw h refl

decode-encode_unit :
    (c : ℕ) (bs : Bytes)
    → c < 65536
    → decode_from 0 0 (encode_unit c ++ bs) ≡ c ∷ decode_from 0 0 bs
decode-encode_unit c bs h = elim (Bool-cases (ltb c 128)) [
  | inl e ↦ rw e (single c bs (ground arith))
  | inr e ↦ rw e (ap (λ u. u ∷ decode_from 0 0 bs) (omega arith))
]

decode-encode : (b : Bool) (s : JsString) → scalar_from b s ≡ true → decode_from 0 0 (encode s) ≡ s
unfolding scalar_from
decode-encode b [] h = refl
decode-encode true (c ∷ cs) h =
    rw (decode-encode_unit c (encode cs) (ground arith), decode-encode false cs (ground arith)) refl
decode-encode false (c ∷ cs) h =
    rw
      (
        decode-encode_unit c (encode cs) (ground arith),
        decode-encode (is_high_surrogate c) cs (ground arith),
      )
      refl

no_dot-digit : (n : ℕ) (cs : JsString) → includes b'.' (to_digit n ∷ cs) ≡ includes b'.' cs
unfolding includes to_digit
no_dot-digit n cs = ground arith

no_dot-hex : (bs : Bytes) → All IsByte bs → includes b'.' (bytes_to_hex bs) ≡ false
unfolding bytes_to_hex includes
no_dot-hex [] h = refl
no_dot-hex (u ∷ us) (hu, hs) =
    rw (hexes_lem u hu, no_dot-digit (u / 16) _, no_dot-digit (u % 16) _) (no_dot-hex us hs)

result_or_empty : Result JsString → JsString
result_or_empty (ok s) = s
result_or_empty (err e) = []
result_or_empty out_of_fuel = []

address_lem :
    (version : ℕ) (hash160 : JsString)
    → IsHash160 hash160
    → IsAddressOf sample_platform version hash160 ((65 + version) ∷ hash160)
unfolding includes
address_lem version hash160 h = record {
  decodes = ap (λ n. ok (int (pos n), hash160)) (omega arith);
  no_dot = rw (h.text) (rw (no_dot-hex h.data_bytes h.are_bytes) (ground arith));
  nonempty = omega arith;
}

pub sample_platform-PlatformLaws : PlatformLaws sample_platform
unfolding result_or_empty
sample_platform-PlatformLaws = record {
  encode-IsByte = encode-IsByte;
  encode_ascii = encode_ascii;
  encode-append = λ s t h a. encode-append s t ∙ ap (λ u. encode s ++ u) (encode_ascii t a);
  decode-encode = λ s h. decode-encode false s h.paired;
  address = λ version hash160 s small h e.
      subst (λ t. IsAddressOf sample_platform version hash160 t) (ap result_or_empty e)
        (address_lem version hash160 h);
}
