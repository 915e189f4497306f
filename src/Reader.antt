-- ===== src/Reader.antt =====
-- packages/transactions/src/BytesReader.ts: the cursor that every deserializer shares. A
-- deserializer is a state-passing function over it, and may throw.
use funai_sdk.Prelude.{ℕ, ◌-◌, Bool, List, Option, none, some, length, take, drop}
use funai_sdk.Prelude.Int.{ℤ, pos, negsuc}
use funai_sdk.Js.Number.{Number, nan, int, add_number, relative_index}
use funai_sdk.Js.Result
use funai_sdk.Js.Result.{Result, ok, err, Error}
use funai_sdk.Bytes.Hex.{Bytes}
use funai_sdk.Bytes.Ints.{bytes_to_big_int}
use funai_sdk.Bytes.Buffer.{read_uint8, read_uint16_be, read_uint32_be}
pub mod Reads
pub mod RoundTrips
pub mod Cursor

pub record BytesReader : Type 0 where
  pub source : Bytes
  pub consumed : Number

-- `new BytesReader(bytes)`
abbrev pub new_reader : Bytes → BytesReader
new_reader bytes = record { source = bytes; consumed = int (pos 0) }

abbrev pub Reader {ℓ} : Type ℓ → Type ℓ
Reader A = BytesReader → Result (A × BytesReader)

unfoldable pub pure {ℓ} : {A : Type ℓ} → A → Reader A
pure a r = ok (a, r)

unfoldable pub lift {ℓ} : {A : Type ℓ} → Result A → Reader A
lift m r = Result.◌>>=◌ m (λ a. ok (a, r))

infixl 5 ◌>>=◌ ◌>>◌
unfoldable pub ◌>>=◌ {ℓ κ} : {A : Type ℓ} {B : Type κ} → Reader A → (A → Reader B) → Reader B
◌>>=◌ p f r = Result.◌>>=◌ (p r) (λ (a, r'). f a r')

unfoldable pub ◌>>◌ {ℓ} : {B : Type ℓ} → Reader (Unit {0}) → Reader B → Reader B
p >> q = p >>= λ _. q

-- `array.subarray(begin, end)`
unfoldable pub subarray : Bytes → Number → Number → Bytes
unfolding relative_index
subarray bs begin end =
    let from = relative_index (length bs) begin in
    take (relative_index (length bs) end - from) (drop from bs)

-- The cursor moves by `length` even where fewer bytes are left.
unfoldable pub read_bytes : Number → Reader Bytes
read_bytes length r =
    let end = add_number r.consumed length in
    ok (subarray r.source r.consumed end, record r { consumed = end })

unfoldable pub read_uint32 : Reader Number
read_uint32 = do bs ← read_bytes (int (pos 4)); pure (read_uint32_be bs)

unfoldable pub read_uint16 : Reader Number
read_uint16 = do bs ← read_bytes (int (pos 2)); pure (read_uint16_be bs)

unfoldable pub read_number8 : Reader Number
read_number8 = do bs ← read_bytes (int (pos 1)); pure (read_uint8 bs)

-- ``BigInt(`0x${bytesToHex(bytesReader.readBytes(length))}`)``
unfoldable pub read_big_uint_be : Number → Reader ℕ
read_big_uint_be length = do bs ← read_bytes length; lift (bytes_to_big_int bs)

-- An enumeration is given by the member that a number stands for; `isEnum` asks whether there is
-- one.
unfoldable pub to_enum {ℓ} : {A : Type ℓ} → (ℕ → Option A) → Number → Option A
to_enum member nan = none
to_enum member (int (negsuc n)) = none
to_enum member (int (pos n)) = member n

unfoldable pub some_or_throw {ℓ} : {A : Type ℓ} → Error → Option A → Result A
some_or_throw e none = err e
some_or_throw e (some a) = ok a

unfoldable pub read_uint8_enum {ℓ} : {A : Type ℓ} → (ℕ → Option A) → Error → Reader A
read_uint8_enum member e = do num ← read_number8; lift (some_or_throw e (to_enum member num))
