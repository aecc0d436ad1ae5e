-- ===== src/Store/Bytes.antt =====
-- crates/tith-store/src/lib.rs: the bytes of a stored record. A `put` is what it appends to its
-- output, and a `take`, which moves a slice on, returns the rest beside the value.
pub mod Reading
use tith.Base.{
  ℕ, zero, suc, ◌+◌, ◌*◌, ◌/◌, ◌%◌, ◌==◌, ltb, if◌then◌else◌, Bool, List, [], ◌∷◌, ◌++◌, length,
  take, drop, Option, none, some, Result, ok, err,
}
use tith.Wire.Cursor.{is_utf8}
use tith.Store.Types.{Text, StoreError, corrupt_record}

abbrev pub Reader : Type 0 → Type 0
Reader A = List ℕ → Result StoreError (A × List ℕ)

-- What a reader goes on with, after what the one before it returned.
abbrev pub onward :
    {A B : Type 0}
    → Result StoreError (A × List ℕ)
    → (A → Reader B)
    → Result StoreError (B × List ℕ)
onward (err e) next = err e
onward (ok (value, rest)) next = next value rest

infixl 5 ◌>>=◌ ◌>>◌
abbrev pub ◌>>=◌ : {A B : Type 0} → Reader A → (A → Reader B) → Reader B
◌>>=◌ first next input = onward (first input) next

abbrev pub ◌>>◌ : {A B : Type 0} → Reader A → Reader B → Reader B
first >> second = first >>= λ _. second

abbrev pub return : {A : Type 0} → A → Reader A
return value input = ok (value, input)

abbrev pub fail : {A : Type 0} → StoreError → Reader A
fail e input = err e

-- `to_be_bytes` and `from_be_bytes`, for any number of bytes.
unfoldable pub to_be : ℕ → ℕ → List ℕ
to_be zero value = []
to_be (suc n) value = to_be n (value / 256) ++ (value % 256) ∷ []

unfoldable pub from_be : ℕ → List ℕ → ℕ
from_be value [] = value
from_be value (byte ∷ bytes) = from_be (value * 256 + byte) bytes

-- `input.get(..n)` and the slice behind it.
unfoldable pub split_off : ℕ → Reader (List ℕ)
split_off n input =
    if ltb (length input) n then err corrupt_record else ok (take n input, drop n input)

unfoldable pub put_u64 : ℕ → List ℕ
unfolding to_be
put_u64 value = to_be 8 value

unfoldable pub take_u64 : Reader ℕ
unfolding split_off from_be
take_u64 = do bytes ← split_off 8; return (from_be 0 bytes)

unfoldable pub put_bytes : List ℕ → List ℕ
put_bytes value = put_u64 (length value) ++ value

-- A usize has 64 bits, so `usize::try_from` does not fail.
unfoldable pub take_bytes : Reader (List ℕ)
unfolding split_off
take_bytes = do len ← take_u64; split_off len

unfoldable pub put_string : Text → List ℕ
unfolding put_bytes
put_string value = put_bytes value

unfoldable pub take_string : Reader Text
take_string = do bytes ← take_bytes; if is_utf8 bytes then return bytes else fail corrupt_record

unfoldable pub take_byte : Reader ℕ
take_byte [] = err corrupt_record
take_byte (byte ∷ input) = ok (byte, input)

unfoldable pub take_bytes_fixed : ℕ → Reader (List ℕ)
unfolding split_off
take_bytes_fixed n = split_off n

-- An optional value behind a byte that says whether it is there.
unfoldable pub put_optional : {A : Type 0} → (A → List ℕ) → Option A → List ℕ
put_optional put none = 0 ∷ []
put_optional put (some value) = 1 ∷ put value

unfoldable pub take_optional : {A : Type 0} → Reader A → Reader (Option A)
take_optional take_value = do
  tag ← take_byte
  if tag == 0
      then return none
      else if tag == 1
      then (do value ← take_value; return (some value))
      else fail corrupt_record

unfoldable pub put_optional_string : Option Text → List ℕ
unfolding put_optional
put_optional_string value = put_optional put_string value

unfoldable pub take_optional_string : Reader (Option Text)
unfolding take_optional
take_optional_string = take_optional take_string

unfoldable pub put_optional_u64 : Option ℕ → List ℕ
unfolding put_optional
put_optional_u64 value = put_optional put_u64 value

unfoldable pub take_optional_u64 : Reader (Option ℕ)
unfolding take_optional
take_optional_u64 = take_optional take_u64

unfoldable pub take_count : Reader ℕ
take_count = take_u64
