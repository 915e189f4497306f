-- ===== src/Clarity/Leaves.antt =====
-- Clarity values that hold no others: what is written reads back.
use funai_sdk.Prelude.{
  ℕ, ◌+◌, ◌-◌, ◌*◌, ◌/◌, ◌%◌, ◌^◌, ◌≤◌, ◌<◌, ◌≡◌, refl, ap, ◌∙◌, [], ◌∷◌, ◌++◌, length, All,
  All-append, arith, le→ltb, map,
}
use funai_sdk.Prelude.Int.{ℤ, pos, negsuc}
use funai_sdk.Js.Text.{JsString}
use funai_sdk.Js.Result.{ok}
use funai_sdk.Bytes.Hex.{Bytes, IsByte, concat_array, part_bytes, octets_to_bytes}
use funai_sdk.Bytes.HexLaws.{hex_to_bytes-bytes_to_hex, length-bytes_to_hex}
use funai_sdk.Bytes.Ints.{big_int_to_bytes, bytes_to_big_int, bytes_to_twos}
use funai_sdk.Bytes.IntLaws.{
  be_bytes, be_bytes-IsByte, length-be_bytes, be_value-be_bytes, hex_to_bytes-int_to_hex,
  bytes_to_big_int-be_value,
}
use funai_sdk.Bytes.Twos.{Fits, wrapped, wrapped_bound, to_twos-ok, from_twos-wrapped, ltb_neg_of}
use funai_sdk.Bytes.Buffer.{write_uint32_be}
use funai_sdk.Bytes.Words.{write_uint32_be-IsByte}
use funai_sdk.Platform.{Platform, PlatformLaws, IsScalarText}
use funai_sdk.Reader.{Reader, read_bytes, read_uint32, ◌>>=◌}
use funai_sdk.Reader.Reads.{
  Reads, Reads-bind, Reads-last, Reads-lift, Reads-pure, read_bytes-Reads, read_uint32-Reads,
}
use funai_sdk.Clarity.Types.{
  integer, unsigned, buffer, bool_true, bool_false, optional_none, string_ascii, string_utf8,
  wire_type,
}
use funai_sdk.Clarity.Create.{int_cv, uint_cv, buffer_cv}
use funai_sdk.Clarity.Serialize.{
  bytes_with_type_id, serialize_cv_bytes, serialize_buffer, serialize_string, ascii_to_bytes,
}
use funai_sdk.Clarity.Deserialize.{deserialize_as, int_cv_from_bytes, uint_cv_from_bytes}
use funai_sdk.Clarity.Valid.{IsValid, IsBuffer, canonical, depth}
use funai_sdk.Clarity.Tagged.{CvRoundTrips, tagged-CvRoundTrips}

int_cv-Fits : (v : ℤ) → Fits 128 v → int_cv v ≡ ok (integer v)
unfolding int_cv
int_cv-Fits (pos n) h = rw (le→ltb (2 ^ 127 - 1) n (omega arith))
int_cv-Fits (negsuc n) h = rw (ltb_neg_of n (2 ^ 127) h)

bytes_to_big_int-be_bytes : (k n : ℕ) → 1 ≤ k → n < 256 ^ k → bytes_to_big_int (be_bytes k n) ≡ ok n
bytes_to_big_int-be_bytes k n hk h =
    bytes_to_big_int-be_value (be_bytes k n) (rw length-be_bytes hk) (be_bytes-IsByte k n)
    ∙ ap ok (be_value-be_bytes k n h)

int_cv_from_bytes-wrapped :
    (v : ℤ) → Fits 128 v → int_cv_from_bytes (be_bytes 16 (wrapped 128 v)) ≡ ok (integer v)
unfolding int_cv_from_bytes bytes_to_twos
int_cv_from_bytes-wrapped v h =
    rw (bytes_to_big_int-be_bytes 16 (wrapped 128 v) (omega arith) (wrapped_bound 127 v h))
      (rw length-be_bytes (rw (from_twos-wrapped 127 v h) (int_cv-Fits v h)))

uint_cv_from_bytes-be_bytes :
    (n : ℕ) → n < 2 ^ 128 → uint_cv_from_bytes (be_bytes 16 n) ≡ ok (unsigned (pos n))
unfolding uint_cv_from_bytes uint_cv
uint_cv_from_bytes-be_bytes n h =
    rw (bytes_to_big_int-be_bytes 16 n (omega arith) h)
      (rw (le→ltb n 0 (omega arith), le→ltb (2 ^ 128 - 1) n (omega arith)))

big_int_to_bytes-be_bytes : (n : ℕ) → n < 2 ^ 128 → big_int_to_bytes (pos n) 16 ≡ ok (be_bytes 16 n)
unfolding big_int_to_bytes
big_int_to_bytes-be_bytes n h = hex_to_bytes-int_to_hex 16 n (omega arith) h

buffer_cv-IsBuffer :
    (value : JsString) (v : IsBuffer value) → buffer_cv v.data_bytes ≡ ok (buffer value)
unfolding buffer_cv
buffer_cv-IsBuffer value v = rw (le→ltb 1_048_576 (length v.data_bytes) v.fits, ← v.text)

serialize_buffer-IsBuffer :
    (value : JsString) (v : IsBuffer value)
    → serialize_buffer value ≡ ok (write_uint32_be (length v.data_bytes) ++ (v.data_bytes ++ []))
unfolding serialize_buffer concat_array part_bytes
serialize_buffer-IsBuffer value v =
    let half : (2 * length v.data_bytes + 1) / 2 ≡ length v.data_bytes = omega arith in
    rw (v.text) (
      rw (hex_to_bytes-bytes_to_hex v.data_bytes v.are_bytes)
        (rw (length-bytes_to_hex v.data_bytes v.are_bytes) (rw half)))

-- The reading of a length and of as many bytes.
module _ {A : Type 0} (f : Bytes → Reader A) {a : A} where
  Reads-counted :
      (bs : Bytes)
      → length bs < 2 ^ 32
      → Reads (f bs) [] a
      → Reads
          (read_uint32 >>= λ n. read_bytes n >>= f)
          (write_uint32_be (length bs) ++ (bs ++ []))
          a
  Reads-counted bs h k =
      Reads-bind _ (read_uint32-Reads (length bs) h) (Reads-bind _ (read_bytes-Reads bs) k)

counted-IsByte :
    (bs : Bytes) → All IsByte bs → All IsByte (write_uint32_be (length bs) ++ (bs ++ []))
counted-IsByte bs h =
    All-append IsByte (write_uint32_be (length bs)) (bs ++ []) (write_uint32_be-IsByte _)
      (All-append IsByte bs [] h tt)

map-mod : (s : JsString) → All IsByte s → map (λ c. c % 256) s ≡ s
map-mod [] h = refl
map-mod (c ∷ s) (hc, h) = let e : c % 256 ≡ c = omega arith in rw (e, map-mod s h)

module _ (env : Platform) where
  pub integer-CvRoundTrips : (v : ℤ) → Fits 128 v → CvRoundTrips env (integer v)
  unfolding serialize_cv_bytes deserialize_as canonical depth wire_type
  integer-CvRoundTrips v h =
      tagged-CvRoundTrips env (integer v) 0x00 _ (be_bytes 16 (wrapped 128 v)) (omega arith) refl
        (rw (to_twos-ok 127 v h)
          (rw (big_int_to_bytes-be_bytes (wrapped 128 v) (wrapped_bound 127 v h))))
        (be_bytes-IsByte 16 _) (omega arith)
        (λ f _.
          Reads-last _ (rw length-be_bytes at (read_bytes-Reads (be_bytes 16 (wrapped 128 v))))
            (Reads-lift (int_cv_from_bytes-wrapped v h)))

  pub unsigned-CvRoundTrips : (v : ℤ) → IsValid env (unsigned v) → CvRoundTrips env (unsigned v)
  unfolding serialize_cv_bytes deserialize_as canonical depth wire_type
  unsigned-CvRoundTrips (negsuc n) h = absurd h
  unsigned-CvRoundTrips (pos n) h =
      tagged-CvRoundTrips env (unsigned (pos n)) 0x01 _ (be_bytes 16 n) (omega arith) refl
        (rw (big_int_to_bytes-be_bytes n h)) (be_bytes-IsByte 16 n) (omega arith)
        (λ f _.
          Reads-last _ (rw length-be_bytes at (read_bytes-Reads (be_bytes 16 n)))
            (Reads-lift (uint_cv_from_bytes-be_bytes n h)))

  pub buffer-CvRoundTrips : (value : JsString) → IsBuffer value → CvRoundTrips env (buffer value)
  unfolding serialize_cv_bytes deserialize_as canonical depth wire_type
  buffer-CvRoundTrips value v =
      tagged-CvRoundTrips env (buffer value) 0x02 _ _ (omega arith) refl
        (rw (serialize_buffer-IsBuffer value v)) (counted-IsByte v.data_bytes v.are_bytes)
        (omega arith)
        (λ f _.
          Reads-counted _ v.data_bytes (omega (arith, v.fits))
            (Reads-lift (buffer_cv-IsBuffer value v)))

  pub true-CvRoundTrips : CvRoundTrips env bool_true
  unfolding serialize_cv_bytes deserialize_as canonical depth wire_type bytes_with_type_id
      concat_array part_bytes octets_to_bytes
  true-CvRoundTrips =
      tagged-CvRoundTrips env bool_true 0x03 _ [] (omega arith) refl refl tt (omega arith)
        (λ f _. Reads-pure bool_true)

  pub false-CvRoundTrips : CvRoundTrips env bool_false
  unfolding serialize_cv_bytes deserialize_as canonical depth wire_type bytes_with_type_id
      concat_array part_bytes octets_to_bytes
  false-CvRoundTrips =
      tagged-CvRoundTrips env bool_false 0x04 _ [] (omega arith) refl refl tt (omega arith)
        (λ f _. Reads-pure bool_false)

  pub none-CvRoundTrips : CvRoundTrips env optional_none
  unfolding serialize_cv_bytes deserialize_as canonical depth wire_type bytes_with_type_id
      concat_array part_bytes octets_to_bytes
  none-CvRoundTrips =
      tagged-CvRoundTrips env optional_none 0x09 _ [] (omega arith) refl refl tt (omega arith)
        (λ f _. Reads-pure optional_none)

  pub ascii-CvRoundTrips :
      (s : JsString) → All IsByte s → length s < 2 ^ 32 → CvRoundTrips env (string_ascii s)
  unfolding serialize_cv_bytes deserialize_as canonical depth wire_type serialize_string
      ascii_to_bytes concat_array part_bytes
  ascii-CvRoundTrips s h small =
      tagged-CvRoundTrips env (string_ascii s) 0x0d _ (write_uint32_be (length s) ++ (s ++ []))
        (omega arith) refl (rw (map-mod s h)) (counted-IsByte s h) (omega arith)
        (λ f _. Reads-counted _ s small (Reads-pure (string_ascii s)))

module _ (env : Platform) (laws : PlatformLaws env) where
  pub utf8-CvRoundTrips :
      (s : JsString)
      → IsScalarText s
      → length (env.utf8_to_bytes s) < 2 ^ 32
      → CvRoundTrips env (string_utf8 s)
  unfolding serialize_cv_bytes deserialize_as canonical depth wire_type serialize_string
      concat_array part_bytes
  utf8-CvRoundTrips s h small =
      let bs = env.utf8_to_bytes s in
      tagged-CvRoundTrips env (string_utf8 s) 0x0e _ (write_uint32_be (length bs) ++ (bs ++ []))
        (omega arith) refl refl (counted-IsByte bs (laws.encode-IsByte s)) (omega arith)
        (λ f _. Reads-counted _ bs small (rw (laws.decode-encode s h) (Reads-pure (string_utf8 s))))
