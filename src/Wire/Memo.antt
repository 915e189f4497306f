-- ===== src/Wire/Memo.antt =====
-- Memos: 34 bytes, the content filled up by nulls.
use funai_sdk.Prelude.{
  ℕ, zero, suc, ◌-◌, ◌*◌, ◌≤◌, ◌≡◌, refl, ◌∙◌, Bool, false, [], ◌∷◌, ◌++◌, length, length-append,
  length-replicate, All, All-append, arith, ◌==◌, replicate,
}
use funai_sdk.Js.Text.{JsString, pad_end}
use funai_sdk.Bytes.Hex.{Bytes, IsByte, concat_array, bytes_to_hex, hexes}
use funai_sdk.Bytes.HexLaws.{bytes_to_hex-append, length-bytes_to_hex, hex_to_bytes-bytes_to_hex}
use funai_sdk.Platform.{Platform, PlatformLaws, IsScalarText, IsAscii, IsScalarText-append_ascii}
use funai_sdk.Reader.Reads.{Reads-bind, Reads-pure, read_bytes-Reads}
use funai_sdk.Reader.RoundTrips.{RoundTrips}
use funai_sdk.Wire.Types.{MemoStringWire}
use funai_sdk.Wire.Write.{serialize_memo_string_bytes}
use funai_sdk.Wire.Read.{deserialize_memo_string, strip_nulls, keep_before}

abbrev pub ends_with_null : JsString → Bool
ends_with_null [] = false
ends_with_null (c ∷ []) = c == 0
ends_with_null (c ∷ d ∷ ds) = ends_with_null (d ∷ ds)

strip_nulls-nulls : (n : ℕ) → strip_nulls (replicate n 0) ≡ []
unfolding strip_nulls
strip_nulls-nulls zero = refl
strip_nulls-nulls (suc n) = rw (strip_nulls-nulls n) (unfold keep_before in refl)

strip_nulls-append : (s : JsString) (n : ℕ) → strip_nulls (s ++ replicate n 0) ≡ strip_nulls s
unfolding strip_nulls
strip_nulls-append [] n = strip_nulls-nulls n
strip_nulls-append (c ∷ s) n = rw (strip_nulls-append s n)

strip_nulls-kept : (s : JsString) → ends_with_null s ≡ false → strip_nulls s ≡ s
unfolding strip_nulls
strip_nulls-kept [] h = refl
strip_nulls-kept (c ∷ []) h = unfold keep_before in rw h
strip_nulls-kept (c ∷ d ∷ ds) h = rw (strip_nulls-kept (d ∷ ds) h) (unfold keep_before in refl)

IsAscii-nulls : (n : ℕ) → All IsAscii (replicate n 0)
IsAscii-nulls zero = tt
IsAscii-nulls (suc n) = (omega arith, IsAscii-nulls n)

IsByte-nulls : (n : ℕ) → All IsByte (replicate n 0)
IsByte-nulls zero = tt
IsByte-nulls (suc n) = (omega arith, IsByte-nulls n)

bytes_to_hex-nulls : (n : ℕ) → bytes_to_hex (replicate n 0) ≡ replicate (n * 2) b'0'
unfolding bytes_to_hex hexes
bytes_to_hex-nulls zero = refl
bytes_to_hex-nulls (suc n) =
    let twice : suc n * 2 ≡ suc (suc (n * 2)) = omega arith in rw (twice, bytes_to_hex-nulls n)

pad_end-bytes_to_hex :
    (bs : Bytes)
    → All IsByte bs
    → length bs ≤ 34
    → pad_end (bytes_to_hex bs) 68 b'0' ≡ bytes_to_hex (bs ++ replicate (34 - length bs) 0)
unfolding pad_end
pad_end-bytes_to_hex bs h fits =
    let size : 68 - length (bytes_to_hex bs) ≡ (34 - length bs) * 2 =
      rw (length-bytes_to_hex bs h) (omega arith) in
    rw (size, bytes_to_hex-append, bytes_to_hex-nulls)

pub record IsMemo (env : Platform) (memo : MemoStringWire) : Type 0 where
  pub scalar : IsScalarText memo.content
  pub fits : length (env.utf8_to_bytes memo.content) ≤ 34
  pub no_null : ends_with_null memo.content ≡ false

module _ (env : Platform) (laws : PlatformLaws env) where
  -- What `TextDecoder` makes of a text that is filled up by nulls.
  decode-padded :
      (s : JsString) (n : ℕ)
      → IsScalarText s
      → env.bytes_to_utf8 (env.utf8_to_bytes s ++ replicate n 0) ≡ s ++ replicate n 0
  decode-padded s n h =
      let nulls = IsAscii-nulls n in
      rw (← laws.encode-append s (replicate n 0) h nulls)
        (laws.decode-encode (s ++ replicate n 0) (IsScalarText-append_ascii s _ h nulls))

  -- For a platform that keeps its laws and a memo that UTF-8 encodes into at most 34 bytes and
  -- that does not end in a null, `serializeMemoStringBytes` returns an array of bytes off which
  -- `deserializeMemoString` reads that memo and nothing more.
  pub memo-RoundTrips :
      (memo : MemoStringWire)
      → IsMemo env memo
      → RoundTrips (serialize_memo_string_bytes env memo) (deserialize_memo_string env) memo
  unfolding serialize_memo_string_bytes deserialize_memo_string concat_array
  memo-RoundTrips memo v =
      let content = env.utf8_to_bytes memo.content in
      let nulls = replicate (34 - length content) 0 in
      let whole = content ++ nulls in
      let are_bytes : All IsByte whole =
        All-append IsByte content nulls (laws.encode-IsByte memo.content) (IsByte-nulls _) in
      let size : length whole ≡ 34 = rw (length-append, length-replicate) (omega (arith, v.fits)) in
      let text : strip_nulls (env.bytes_to_utf8 whole) ≡ memo.content =
        rw (decode-padded memo.content _ v.scalar)
          (strip_nulls-append memo.content _ ∙ strip_nulls-kept memo.content v.no_null) in
      record {
        wire = whole ++ [];
        writes =
            rw (pad_end-bytes_to_hex content (laws.encode-IsByte memo.content) v.fits)
              (rw (hex_to_bytes-bytes_to_hex whole are_bytes));
        are_bytes = All-append IsByte whole [] are_bytes tt;
        reads = Reads-bind _ (rw size at (read_bytes-Reads whole)) (rw text (Reads-pure memo));
      }
