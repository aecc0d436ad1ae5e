-- ===== src/Wire/Stream.antt =====
-- crates/tith-wire/src/tlv.rs: `TlvReader` and `TlvValue`, which read TLVs from any `Read`. A
-- `Read` is a state with a function that takes the length of a buffer and returns the bytes that
-- were written to it, which are none at the end.
pub mod Integer
pub mod Reading
pub mod Equal
mod Runs
use tith.Base.{
  ℕ, zero, suc, ◌-◌, bit_and, leb, ◌==◌, ◌&&◌, ◌||◌, if◌then◌else◌, Bool, true, false, List, [],
  ◌∷◌, ◌++◌, length, Option, none, some, Result, ok, err, ◌>>=◌, map_err,
}
use tith.Wire.Integer.{unterminated, overflow, max_u64_bytes, decode_u64_prefix}
use tith.Wire.TypeCode.{
  IoError, interrupted, unexpected_eof, FramingError, io, integer, unconsumed_value, panic, stuck,
  SequenceTypeState, new, ensure_active, accept,
}
use tith.Wire.Tlv.{TlvHeader, OwnedTlv, platform_capacity}

abbrev pub Read : Type 0 → Type 0
Read S = ℕ → S → Result IoError (List ℕ) × S

pub record TlvReader (S : Type 0) : Type 0 where
  pub inner : S
  pub remaining : ℕ
  pub type_state : SequenceTypeState

-- `TlvReader::new`.
abbrev pub new_reader : {S : Type 0} → S → TlvReader S
new_reader inner = record { inner = inner; remaining = 0; type_state = new }

-- A number is decoded once its last byte is there.
unfoldable pub decode_used : List ℕ → Result FramingError (Option ℕ)
decode_used used =
    map_err integer (decode_u64_prefix used) >>= λ (decoded : ℕ × ℕ). ok (some decoded.0)

-- What `read_integer` returns at the end of the input, with the bytes that it has.
unfoldable pub integer_at_end : List ℕ → Bool → Result FramingError (Option ℕ)
integer_at_end [] allow_eof = if allow_eof then ok none else err (integer unterminated)
integer_at_end (byte ∷ used) allow_eof = err (integer unterminated)

abbrev pub last_byte : ℕ → Bool
last_byte byte = bit_and byte 0x80 == 0

module _ {S : Type 0} where
  -- What a call returned: an interrupted one is made again.
  unfoldable pub settle :
      (S → Result FramingError (List ℕ) × S)
      → Result IoError (List ℕ) × S
      → Result FramingError (List ℕ) × S
  settle again (ok bytes, inner) = (ok bytes, inner)
  settle again (err interrupted, inner) = again inner
  settle again (err unexpected_eof, inner) = (err (io unexpected_eof), inner)
  settle again (err IoError.other, inner) = (err (io IoError.other), inner)

  -- A round of the loop of `read_integer`: a byte that has come ends the number, or `again` reads on.
  unfoldable pub integer_round :
      (List ℕ → S → Result FramingError (Option ℕ) × S)
      → List ℕ
      → Bool
      → Result FramingError (List ℕ) × S
      → Result FramingError (Option ℕ) × S
  integer_round again used allow_eof (err e, inner) = (err e, inner)
  integer_round again used allow_eof (ok [], inner) = (integer_at_end used allow_eof, inner)
  integer_round again used allow_eof (ok (byte ∷ _), inner) =
      if last_byte byte
      then (decode_used (used ++ (byte ∷ [])), inner)
      else again (used ++ (byte ∷ [])) inner

  -- `read_next`, after the integers: `read_length` is what reads the second one.
  unfoldable pub with_length :
      ℕ
      → TlvReader S
      → Result FramingError (Option ℕ) × S
      → Result FramingError (Option TlvHeader) × TlvReader S
  with_length type_code self (err e, inner) = (err e, record self { inner = inner })
  with_length type_code self (ok none, inner) = (err panic, record self { inner = inner })
  with_length type_code self (ok (some len), inner) = (
    ok (some (record { type_code = type_code; len = len })),
    record self { inner = inner; remaining = len },
  )

  unfoldable pub with_accepted :
      (S → Result FramingError (Option ℕ) × S)
      → ℕ
      → TlvReader S
      → Result FramingError (Unit {0}) × SequenceTypeState
      → Result FramingError (Option TlvHeader) × TlvReader S
  with_accepted read_length type_code self (err e, type_state) =
      (err e, record self { type_state = type_state })
  with_accepted read_length type_code self (ok _, type_state) =
      with_length type_code (record self { type_state = type_state }) (read_length self.inner)

  unfoldable pub with_type :
      (S → Result FramingError (Option ℕ) × S)
      → TlvReader S
      → Result FramingError (Option ℕ) × S
      → Result FramingError (Option TlvHeader) × TlvReader S
  with_type read_length self (err e, inner) = (err e, record self { inner = inner })
  with_type read_length self (ok none, inner) = (ok none, record self { inner = inner })
  with_type read_length self (ok (some type_code), inner) =
      with_accepted read_length type_code (record self { inner = inner })
        (accept self.type_state type_code)

  -- What `TlvValue::read` makes of the bytes that have come.
  unfoldable pub value_round :
      TlvReader S → Result FramingError (List ℕ) × S → Result FramingError (List ℕ) × TlvReader S
  value_round self (err e, inner) = (err e, record self { inner = inner })
  value_round self (ok [], inner) = (err (io unexpected_eof), record self { inner = inner })
  value_round self (ok (byte ∷ bytes), inner) = (
    ok (byte ∷ bytes),
    record self { inner = inner; remaining = self.remaining - length (byte ∷ bytes) },
  )

  unfoldable pub end_round :
      (List ℕ → TlvReader S → Result FramingError (List ℕ) × TlvReader S)
      → List ℕ
      → Result FramingError (List ℕ) × TlvReader S
      → Result FramingError (List ℕ) × TlvReader S
  end_round again value (err e, self) = (err e, self)
  end_round again value (ok [], self) = (ok value, self)
  end_round again value (ok (byte ∷ bytes), self) = again (value ++ (byte ∷ bytes)) self

  unfoldable pub owned :
      ℕ → Result FramingError (List ℕ) × TlvReader S → Result FramingError OwnedTlv × TlvReader S
  owned type_code (err e, self) = (err e, self)
  owned type_code (ok value, self) = (ok (record { type_code = type_code; value = value }), self)

  -- `map(TlvValue::read_owned).transpose()`.
  unfoldable pub optional_value :
      Result FramingError OwnedTlv × TlvReader S
      → Result FramingError (Option OwnedTlv) × TlvReader S
  optional_value (err e, self) = (err e, self)
  optional_value (ok tlv, self) = (ok (some tlv), self)

-- `patience` is fuel: how many calls may be made for one read. `buffer` is the length of the
-- buffer that `read_to_end` of the standard library passes, given what it has read.
module _ {S : Type 0} (read : Read S) (patience : ℕ) (buffer : List ℕ → ℕ) where
  -- The calls of `inner.read` until one is not interrupted.
  unfoldable pub read_inner : ℕ → ℕ → S → Result FramingError (List ℕ) × S
  read_inner zero n inner = (err stuck, inner)
  read_inner (suc fuel) n inner = settle (λ (again : S). read_inner fuel n again) (read n inner)

  -- `while used < bytes.len()`: the first argument counts the bytes of the array that are free.
  unfoldable pub integer_loop : ℕ → List ℕ → Bool → S → Result FramingError (Option ℕ) × S
  integer_loop zero used allow_eof inner = (err (integer overflow), inner)
  integer_loop (suc free) used allow_eof inner =
      integer_round (λ (used' : List ℕ) (inner' : S). integer_loop free used' allow_eof inner') used
        allow_eof (read_inner patience 1 inner)

  unfoldable pub read_integer : Bool → S → Result FramingError (Option ℕ) × S
  read_integer allow_eof inner = integer_loop max_u64_bytes [] allow_eof inner

  unfoldable pub read_next : TlvReader S → Result FramingError (Option TlvHeader) × TlvReader S
  unfolding ensure_active
  read_next self = elim (ensure_active self.type_state) [
    | err e ↦ (err e, self)
    | ok _ ↦
        if self.remaining == 0
        then with_type (read_integer false) self (read_integer true self.inner)
        else (err (unconsumed_value self.remaining), self)
  ]

  -- `TlvValue::read`, for a buffer of this length.
  unfoldable pub read_value : ℕ → TlvReader S → Result FramingError (List ℕ) × TlvReader S
  read_value len self =
      if self.remaining == 0 || len == 0
      then (ok [], self)
      else value_round self
          (read_inner patience (if leb self.remaining len then self.remaining else len) self.inner)

  -- `read_to_end`, on fuel: a read that returns nothing is the last.
  unfoldable pub read_to_end : ℕ → List ℕ → TlvReader S → Result FramingError (List ℕ) × TlvReader S
  read_to_end zero value self = (err stuck, self)
  read_to_end (suc fuel) value self =
      end_round (λ (value' : List ℕ) (self' : TlvReader S). read_to_end fuel value' self') value
        (read_value (buffer value) self)

  -- Each read but the last returns a byte at least, so `len + 1` of them are enough.
  unfoldable pub with_capacity :
      TlvHeader → TlvReader S → Result FramingError ℕ → Result FramingError OwnedTlv × TlvReader S
  with_capacity header self (err e) = (err e, self)
  with_capacity header self (ok capacity) =
      owned header.type_code (read_to_end (suc header.len) [] self)

  unfoldable pub read_owned : TlvHeader → TlvReader S → Result FramingError OwnedTlv × TlvReader S
  read_owned header self = with_capacity header self (platform_capacity header.len)

  unfoldable pub owned_if_some :
      Result FramingError (Option TlvHeader) × TlvReader S
      → Result FramingError (Option OwnedTlv) × TlvReader S
  owned_if_some (err e, self) = (err e, self)
  owned_if_some (ok none, self) = (ok none, self)
  owned_if_some (ok (some header), self) = optional_value (read_owned header self)

  -- `reader.read_next()?.map(TlvValue::read_owned).transpose()?`, as a server reads the first TLV
  -- behind the header of a bundle.
  unfoldable pub read_first : TlvReader S → Result FramingError (Option OwnedTlv) × TlvReader S
  read_first self = owned_if_some (read_next self)
