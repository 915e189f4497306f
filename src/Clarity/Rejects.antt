-- ===== src/Clarity/Rejects.antt =====
-- What `deserializeCV` rejects.
use funai_sdk.Prelude.{ℕ, ◌<◌, ◌≡◌, none, ◌∷◌, [], arith}
use funai_sdk.Js.Result.{err, unknown_clarity_type}
use funai_sdk.Bytes.Hex.{Bytes}
use funai_sdk.Platform.{Platform}
use funai_sdk.Reader.{new_reader, ◌>>=◌, lift, read_uint8_enum, to_enum, some_or_throw}
use funai_sdk.Reader.Reads.{read_number8-Reads}
use funai_sdk.Clarity.Types.{wire_type}
use funai_sdk.Clarity.Deserialize.{deserialize_cv, deserialize_cv_fuel}

wire_type-none : (n : ℕ) → 0x0e < n → wire_type n ≡ none
unfolding wire_type
wire_type-none n h = ground arith

-- On every source whose first byte is above 14, `deserializeCV` throws the error of an unknown
-- Clarity type.
pub deserialize_cv-unknown :
    (env : Platform) (n : ℕ) (rest : Bytes)
    → 0x0e < n
    → deserialize_cv env (new_reader (n ∷ rest)) ≡ err unknown_clarity_type
unfolding deserialize_cv deserialize_cv_fuel ◌>>=◌ read_uint8_enum lift to_enum some_or_throw
deserialize_cv-unknown env n rest h = rw ((read_number8-Reads n).apply [] rest, wire_type-none n h)
