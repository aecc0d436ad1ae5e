-- ===== src/Ledger/Bytes.antt =====
-- crates/tith-ledger/src/lib.rs: how a record of the ledger is written and read. A `take`, which
-- moves a slice on, returns the rest beside the value.
use tith.Base.{
  ℕ, zero, suc, ◌+◌, ◌-◌, ◌*◌, ◌/◌, ◌%◌, ◌^◌, ltb, if◌then◌else◌, List, [], ◌∷◌, ◌++◌, length, take,
  drop, Option, none, some,
}
use tith.Wire.Cursor.{is_utf8}

abbrev pub Taker : Type 0 → Type 0
Taker A = List ℕ → Option (A × List ℕ)

abbrev pub onward : {A B : Type 0} → Option (A × List ℕ) → (A → Taker B) → Option (B × List ℕ)
onward none next = none
onward (some (value, rest)) next = next value rest

infixl 5 ◌>>=◌ ◌>>◌
abbrev pub ◌>>=◌ : {A B : Type 0} → Taker A → (A → Taker B) → Taker B
◌>>=◌ first next input = onward (first input) next

abbrev pub ◌>>◌ : {A B : Type 0} → Taker A → Taker B → Taker B
first >> second = first >>= λ _. second

abbrev pub return : {A : Type 0} → A → Taker A
return value input = some (value, input)

abbrev pub fail : {A : Type 0} → Taker A
fail input = none

-- `to_le_bytes` and `from_le_bytes`, for any number of bytes.
unfoldable pub to_le : ℕ → ℕ → List ℕ
to_le zero value = []
to_le (suc n) value = (value % 256) ∷ to_le n (value / 256)

unfoldable pub from_le : List ℕ → ℕ
from_le [] = 0
from_le (byte ∷ bytes) = byte + 256 * from_le bytes

unfoldable pub take_fixed : ℕ → Taker (List ℕ)
take_fixed n input = if ltb (length input) n then none else some (take n input, drop n input)

unfoldable pub take_byte : Taker ℕ
take_byte [] = none
take_byte (byte ∷ input) = some (byte, input)

abbrev pub u32_max : ℕ
u32_max = 2 ^ 32 - 1

-- `u32::try_from(…).unwrap_or(u32::MAX)`.
abbrev pub u32_length : ℕ → ℕ
u32_length n = if ltb u32_max n then u32_max else n

unfoldable pub push_string : List ℕ → List ℕ
push_string value = to_le 4 (u32_length (length value)) ++ take (u32_length (length value)) value

-- A usize has 64 bits, so `usize::try_from` does not fail.
unfoldable pub take_string : Taker (List ℕ)
take_string = do
  len ← take_fixed 4
  value ← take_fixed (from_le len)
  if is_utf8 value then return value else fail

unfoldable pub push_bytes : List ℕ → List ℕ
push_bytes value = to_le 8 (length value) ++ value

unfoldable pub take_bytes : Taker (List ℕ)
take_bytes = do len ← take_fixed 8; take_fixed (from_le len)

-- `String::from_utf8(take_bytes(input)?).ok()?`.
unfoldable pub take_text : Taker (List ℕ)
take_text = do value ← take_bytes; if is_utf8 value then return value else fail

-- A loop that writes each value, and one that reads `count` of them.
unfoldable pub push_all : {A : Type 0} → (A → List ℕ) → List A → List ℕ
push_all push [] = []
push_all push (value ∷ values) = push value ++ push_all push values

unfoldable pub take_all : {A : Type 0} → Taker A → ℕ → Taker (List A)
take_all reader zero = return []
take_all reader (suc count) = do
  value ← reader
  values ← take_all reader count
  return (value ∷ values)
