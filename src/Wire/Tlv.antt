-- ===== src/Wire/Tlv.antt =====
-- crates/tith-wire/src/tlv.rs: the owned TLV codec. A byte vector is a list of numbers.
pub mod Codec
pub mod Sequence
use tith.Base.{
  ℕ, zero, suc, ◌+◌, ◌-◌, ◌^◌, ◌<◌, ltb, ◌==◌, if◌then◌else◌, List, [], ◌∷◌, ◌++◌, length, take,
  drop, Option, none, some, Result, ok, err, ◌>>=◌, ◌>>◌, map_err,
}
use tith.Wire.Integer.{encode_u64, decode_u64_prefix}
use tith.Wire.TypeCode.{
  FramingError, integer, truncated_value, length_overflow, stuck, require_defined_type,
}

-- A 64-bit platform.
abbrev pub usize_max : ℕ
usize_max = 2 ^ 64 - 1

unfoldable pub checked_capacity : ℕ → ℕ → Result FramingError ℕ
checked_capacity len maximum = if ltb maximum len then err length_overflow else ok len

unfoldable pub platform_capacity : ℕ → Result FramingError ℕ
unfolding checked_capacity
platform_capacity len = checked_capacity len usize_max

pub record TlvHeader : Type 0 where
  pub type_code : ℕ
  pub len : ℕ

pub record OwnedTlv : Type 0 where
  pub type_code : ℕ
  pub value : List ℕ

-- `TlvHeader::new`.
unfoldable pub new_header : ℕ → ℕ → Result FramingError TlvHeader
unfolding require_defined_type
new_header type_code len = do
  require_defined_type type_code
  ok (record { type_code = type_code; len = len })

unfoldable pub header_encoded_len : TlvHeader → ℕ
header_encoded_len self = length (encode_u64 self.type_code) + length (encode_u64 self.len)

-- `TlvHeader::write_to`. The writer is a `Vec`, whose writes cannot fail: what it holds comes back.
unfoldable pub write_header : TlvHeader → List ℕ → List ℕ
write_header self writer = (writer ++ encode_u64 self.type_code) ++ encode_u64 self.len

-- `OwnedTlv::new`.
unfoldable pub new_tlv : ℕ → List ℕ → Result FramingError OwnedTlv
unfolding new_header
new_tlv type_code value = do
  new_header type_code (length value)
  ok (record { type_code = type_code; value = value })

unfoldable pub encoded_len : OwnedTlv → ℕ
encoded_len self =
    length (encode_u64 self.type_code) + length (encode_u64 (length self.value)) + length self.value

unfoldable pub write_to : OwnedTlv → List ℕ → Result FramingError (List ℕ)
unfolding new_header write_header
write_to self writer = do
  header ← new_header self.type_code (length self.value)
  ok (write_header header writer ++ self.value)

-- `none` is the panic of `expect`.
unfoldable pub encode : OwnedTlv → Option (List ℕ)
unfolding write_to
encode self = elim (write_to self []) [ ok bytes ↦ some bytes | err _ ↦ none ]

-- One round of the loop of `parse_sequence`: a TLV and the bytes after it.
unfoldable pub parse_next : List ℕ → Result FramingError (OwnedTlv × List ℕ)
unfolding require_defined_type platform_capacity
parse_next bytes = do
  (type_code, type_len) ← map_err integer (decode_u64_prefix bytes)
  require_defined_type type_code
  let after_type = drop type_len bytes
  (len, length_len) ← map_err integer (decode_u64_prefix after_type)
  let after_length = drop length_len after_type
  capacity ← platform_capacity len
  if ltb (length after_length) capacity
      then err (truncated_value capacity (length after_length))
      else ok (
        record { type_code = type_code; value = take capacity after_length },
        drop capacity after_length,
      )

-- `while !bytes.is_empty()`, on fuel.
unfoldable pub parse_loop : ℕ → List ℕ → List OwnedTlv → Result FramingError (List OwnedTlv)
parse_loop fuel [] values = ok values
parse_loop zero (b ∷ bytes) values = err stuck
parse_loop (suc fuel) (b ∷ bytes) values = do
  (value, rest) ← parse_next (b ∷ bytes)
  parse_loop fuel rest (values ++ (value ∷ []))

-- Each round takes two bytes at least, so `length bytes` rounds are enough.
unfoldable pub parse_sequence : List ℕ → Result FramingError (List OwnedTlv)
parse_sequence bytes = parse_loop (length bytes) bytes []

unfoldable pub children : OwnedTlv → Result FramingError (List OwnedTlv)
children self = parse_sequence self.value

-- `concatenate` of common.rs, which writes each value to one `Vec`; `none` is the panic of `expect`.
unfoldable pub concatenate_onto : List ℕ → List OwnedTlv → Option (List ℕ)
concatenate_onto output [] = some output
concatenate_onto output (value ∷ values) = elim (write_to value output) [
  | ok output' ↦ concatenate_onto output' values
  | err _ ↦ none
]

unfoldable pub concatenate : List OwnedTlv → Option (List ℕ)
concatenate values = concatenate_onto [] values
