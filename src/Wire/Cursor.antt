-- ===== src/Wire/Cursor.antt =====
-- crates/tith-wire/src/item_format_impl.rs, `Cursor` and the readers of single values, with the
-- errors of error.rs. The names in the errors are constructors, not texts.
pub mod Walk
use tith.Base.{
  ℕ, zero, suc, ◌+◌, Bool, true, false, ◌&&◌, leb, ◌==◌, if◌then◌else◌, List, [], ◌∷◌, length,
  Option, none, some, Result, ok, err, Eq, ◌=?◌, nat_eq, option_eq,
}
use tith.Base.Options.{is_some}
use tith.Wire.Address.{Address, AddressError, PublicKey, TlvHash}
use tith.Wire.Integer.{IntegerError}
use tith.Wire.TypeCode.{FramingError}
use tith.Wire.Tlv.{OwnedTlv, write_to}
use tith.Wire.Types.{is_defined}

pub data Label : Type 0 where
  request_identifier accepted_request_identifier rejected_request_identifier
        one_request_identifier :
      Label
  tlv_hash accepted_tlv_hash rejected_tlv_hash public_key : Label
  rejected_reason rejected_rejection_reason rejected_timestamp empty_rejection_description : Label
  defined_child_value rejected_child : Label

-- `panic` is no value of the source: it stands for an `expect` that fails. The error of the
-- cryptography is left out, as nothing here returns it.
pub data BundleError : Type 0 where
  framing : FramingError → BundleError
  address : AddressError → BundleError
  integer : IntegerError → BundleError
  invalid_utf8 : BundleError
  duplicate missing unexpected wrong_length : Label → BundleError
  unknown_key : Address → BundleError
  invalid_signature incorrect_header_hash : BundleError
  panic : BundleError

-- `values[index..]` and the index.
pub record Cursor : Type 0 where
  pub rest : List OwnedTlv
  pub index : ℕ

unfoldable pub new_cursor : List OwnedTlv → Cursor
new_cursor values = record { rest = values; index = 0 }

unfoldable pub next_from : List OwnedTlv → ℕ → Option (ℕ × OwnedTlv) × Cursor
next_from [] index = (none, record { rest = []; index = index })
next_from (value ∷ values) index =
    let later = next_from values (index + 1) in
    if is_defined value.type_code
    then (some (index, value), record { rest = values; index = index + 1 })
    else later

unfoldable pub next_defined : Cursor → Option (ℕ × OwnedTlv) × Cursor
next_defined self = next_from self.rest self.index

unfoldable pub peek_type : Cursor → Option ℕ
peek_type self = elim (next_defined self).0 [
  | none ↦ none
  | some (index, value) ↦ some value.type_code
]

unfoldable pub take : Cursor → ℕ → Label → Result BundleError ((ℕ × OwnedTlv) × Cursor)
take self expected name =
    let (found, self') = next_defined self in
    elim found [
      | none ↦ err (missing name)
      | some (index, value) ↦
          if value.type_code == expected then ok ((index, value), self') else err (missing name)
    ]

unfoldable pub optional : Cursor → ℕ → Option (ℕ × OwnedTlv) × Cursor
unfolding peek_type
optional self expected = if peek_type self =? some expected then next_defined self else (none, self)

unfoldable pub finish : Cursor → Result BundleError (Unit {0})
finish self = if is_some (next_defined self).0 then err (unexpected defined_child_value) else ok tt

-- Of the first byte of a scalar value in UTF-8: how many bytes follow, and the range of the next.
unfoldable pub utf8_lead : ℕ → Option (ℕ × (ℕ × ℕ))
utf8_lead byte =
    if leb byte 0x7f
    then some (0, (0, 0))
    else if leb 0xc2 byte && leb byte 0xdf
    then some (1, (0x80, 0xbf))
    else if byte == 0xe0
    then some (2, (0xa0, 0xbf))
    else if byte == 0xed
    then some (2, (0x80, 0x9f))
    else if leb 0xe1 byte && leb byte 0xef
    then some (2, (0x80, 0xbf))
    else if byte == 0xf0
    then some (3, (0x90, 0xbf))
    else if leb 0xf1 byte && leb byte 0xf3
    then some (3, (0x80, 0xbf))
    else if byte == 0xf4
    then some (3, (0x80, 0x8f))
    else none

-- `std::str::from_utf8`, with the bytes that must still follow and the range of the next.
unfoldable pub utf8_from : ℕ → ℕ → ℕ → List ℕ → Bool
unfolding utf8_lead
utf8_from zero low high [] = true
utf8_from (suc following) low high [] = false
utf8_from zero low high (byte ∷ bytes) = elim (utf8_lead byte) [
  | none ↦ false
  | some (following, (low', high')) ↦ utf8_from following low' high' bytes
]
utf8_from (suc following) low high (byte ∷ bytes) =
    (leb low byte && leb byte high) && utf8_from following 0x80 0xbf bytes

unfoldable pub is_utf8 : List ℕ → Bool
unfolding utf8_from
is_utf8 bytes = utf8_from 0 0 0 bytes

-- A `&str` is its bytes.
unfoldable pub text : OwnedTlv → Result BundleError (List ℕ)
text value = if is_utf8 value.value then ok value.value else err invalid_utf8

unfoldable pub parse_public_key : OwnedTlv → Result BundleError PublicKey
parse_public_key value =
    if length value.value == 32 then ok value.value else err (wrong_length public_key)

unfoldable pub encoded_onto : List ℕ → List OwnedTlv → Result BundleError (List ℕ)
encoded_onto output [] = ok output
encoded_onto output (value ∷ values) = elim (write_to value output) [
  | ok output' ↦ encoded_onto output' values
  | err e ↦ err panic
]

-- `encoded_prefix(values, values.len())`.
unfoldable pub encoded_prefix : List OwnedTlv → Result BundleError (List ℕ)
encoded_prefix values = encoded_onto [] values
