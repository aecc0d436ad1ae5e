-- ===== src/Wire/Integer.antt =====
-- crates/tith-wire/src/integer.rs and signed_integer.rs: TTS-0002 canonical unsigned integers, big
-- end first in groups of seven bits, and TTS-0007 signed integers over them.
pub mod Groups
pub mod Codec
use tith.Base.{
  ℕ, zero, suc, ◌+◌, ◌-◌, ◌*◌, ◌/◌, ◌%◌, ◌^◌, ◌<◌, bit_and, bit_or, List, [], ◌∷◌, length, get_or,
  ltb, ◌==◌, if◌then◌else◌, Result, ok, err, ◌>>=◌, Option, none, some, ok_or,
}

pub data IntegerError : Type 0 where
  empty non_canonical overflow unterminated trailing_bytes : IntegerError

abbrev pub max_u64_bytes : ℕ
max_u64_bytes = 10

abbrev pub IsU64 : ℕ → Type 0
IsU64 v = v < 2 ^ 64

abbrev pub IsByte : ℕ → Type 0
IsByte b = b < 256

-- What the first loop of `encode_u64` leaves in `reverse[..used]`: the groups of seven bits, lowest
-- first. The first argument counts the slots of the array that are still free.
unfoldable pub groups : ℕ → ℕ → List ℕ
groups zero value = []
groups (suc slots) value =
    let rest = groups slots (value / 2 ^ 7) in
    (value % 2 ^ 7) ∷ (if value / 2 ^ 7 == 0 then [] else rest)

-- The second loop, `for index in (0..used).rev()`.
unfoldable pub emit : ℕ → List ℕ → List ℕ
emit zero reverse = []
emit (suc index) reverse =
    bit_or (get_or reverse index 0) (if index == 0 then 0 else 0x80) ∷ emit index reverse

unfoldable pub encode_u64 : ℕ → List ℕ
encode_u64 value = let reverse = groups max_u64_bytes value in emit (length reverse) reverse

unfoldable pub checked_mul : ℕ → ℕ → Option ℕ
checked_mul a b = if ltb (a * b) (2 ^ 64) then some (a * b) else none

-- The loop of `decode_u64_prefix`, at `index` with the bytes from there on.
unfoldable pub decode_loop : List ℕ → ℕ → ℕ → Result IntegerError (ℕ × ℕ)
unfolding checked_mul
decode_loop [] index value = err unterminated
decode_loop (byte ∷ bytes) index value = do
  scaled ← ok_or overflow (checked_mul value 128)
  let value' = (scaled + bit_and byte 0x7f) % 2 ^ 64
  let rest = decode_loop bytes (index + 1) value'
  if bit_and byte 0x80 == 0 then ok (value', index + 1) else rest

unfoldable pub decode_u64_prefix : List ℕ → Result IntegerError (ℕ × ℕ)
decode_u64_prefix [] = err empty
decode_u64_prefix (first ∷ bytes) =
    if first == 0x80 then err non_canonical else decode_loop (first ∷ bytes) 0 0

unfoldable pub decode_u64 : List ℕ → Result IntegerError ℕ
decode_u64 bytes = do
  (value, used) ← decode_u64_prefix bytes
  if used == length bytes then ok value else err trailing_bytes
