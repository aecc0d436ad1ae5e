-- ===== src/Wire/Carrier/Rejections.antt =====
-- crates/tith-wire/src/item_carrier.rs: `rejected` against `validate_response`.
use tith.Base.{
  ℕ, ◌≡◌, ◌≢◌, ◌≤◌, refl, arith, true, false, ==_iff, List, [], ◌∷◌, ◌++◌, append-nil, append_assoc,
  length, All, All-append, Option, some, none, ok,
}
use tith.Wire.Address.{TlvHash}
use tith.Wire.Integer.{IsU64, encode_u64}
use tith.Wire.Integer.Codec.{decode_u64-encode}
use tith.Wire.Tlv.{OwnedTlv, parse_sequence, usize_max}
use tith.Wire.Tlv.Codec.{IsValid, image, write_to-image}
use tith.Wire.Tlv.Sequence.{images, parse_sequence-images}
use tith.Wire.Types
use tith.Wire.Types.{is_defined}
use tith.Wire.Item.{
  ItemKind, RejectionReason, permanent, condition_unmet, temporary, from_code, reason_code,
}
use tith.Wire.Cursor.{
  new_cursor, next_from, next_defined, take, optional, finish, peek_type, text, is_utf8,
}
use tith.Wire.Cursor.Walk.{number-IsValid}
use tith.Wire.Carrier.{
  carrier_value, append_value, plain_item, validate_response, validate_rejected, rejected,
  is_temporary,
}

from-reason_code :
    (reason : RejectionReason)
    → (from_code (reason_code reason) ≡ some reason) × IsU64 (reason_code reason)
unfolding from_code reason_code
from-reason_code permanent = (refl, omega arith)
from-reason_code condition_unmet = (refl, omega arith)
from-reason_code temporary = (refl, omega arith)

carrier_value-eq :
    (type_code : ℕ) (bytes : List ℕ)
    → type_code ≢ 0
    → carrier_value type_code bytes ≡ ok (record { type_code = type_code; value = bytes })
unfolding carrier_value
carrier_value-eq type_code bytes d = ground (arith, d)

append_value-image :
    (type_code : ℕ) (bytes output : List ℕ)
    → type_code ≢ 0
    → append_value type_code bytes output
      ≡ ok (output ++ image (record { type_code = type_code; value = bytes }))
unfolding append_value
append_value-image type_code bytes output d = rw (
  carrier_value-eq type_code bytes d,
  write_to-image (record { type_code = type_code; value = bytes }) output d,
)

-- A retry time fits a u64, and only a temporary rejection has one.
abbrev pub IsRetry : RejectionReason → Option ℕ → Type 0
IsRetry reason none = Unit
IsRetry reason (some t) = IsU64 t × (is_temporary reason ≡ true)

abbrev time_tlvs : Option ℕ → List OwnedTlv
time_tlvs none = []
time_tlvs (some t) = record { type_code = Types.timestamp; value = encode_u64 t } ∷ []

abbrev text_tlvs : List ℕ → List OwnedTlv
text_tlvs [] = []
text_tlvs (c ∷ cs) = record { type_code = Types.rejection_description; value = c ∷ cs } ∷ []

module _ (identifier : ℕ) (fits : IsU64 identifier) (hash : TlvHash) (size : length hash ≡ 32)
    (reason : RejectionReason) where
  abbrev children : Option ℕ → List ℕ → List OwnedTlv
  children time description =
      record { type_code = Types.request_identifier; value = encode_u64 identifier }
      ∷ record { type_code = Types.tlv_hash; value = hash }
      ∷ (time_tlvs time
          ++ (record { type_code = Types.rejection_reason; value = encode_u64 (reason_code reason) }
              ∷ text_tlvs description))

  request_step :
      append_value Types.request_identifier (encode_u64 identifier) []
      ≡ ok (
          []
          ++ image (record { type_code = Types.request_identifier; value = encode_u64 identifier }))
  request_step = append_value-image Types.request_identifier _ [] (omega arith)

  hash_step :
      (output : List ℕ)
      → append_value Types.tlv_hash hash output
        ≡ ok (output ++ image (record { type_code = Types.tlv_hash; value = hash }))
  hash_step output = append_value-image Types.tlv_hash hash output (omega arith)

  time_step :
      (t : ℕ) (output : List ℕ)
      → append_value Types.timestamp (encode_u64 t) output
        ≡ ok (output ++ image (record { type_code = Types.timestamp; value = encode_u64 t }))
  time_step t output = append_value-image Types.timestamp _ output (omega arith)

  reason_step :
      (output : List ℕ)
      → append_value Types.rejection_reason (encode_u64 (reason_code reason)) output
        ≡ ok (
            output
            ++ image (record {
              type_code = Types.rejection_reason;
              value = encode_u64 (reason_code reason);
            }))
  reason_step output = append_value-image Types.rejection_reason _ output (omega arith)

  text_step :
      (c : ℕ) (cs output : List ℕ)
      → append_value Types.rejection_description (c ∷ cs) output
        ≡ ok (output ++ image (record { type_code = Types.rejection_description; value = c ∷ cs }))
  text_step c cs output = append_value-image Types.rejection_description _ output (omega arith)

  rejected-images :
      (time : Option ℕ) (description : List ℕ)
      → IsRetry reason time
      → rejected identifier hash time reason description
        ≡ ok (record { type_code = Types.rejected; value = images (children time description) })
  unfolding rejected carrier_value images
  rejected-images none [] h =
      rw (request_step, hash_step _, reason_step _) (simp (append-nil, append_assoc))
  rejected-images none (c ∷ cs) h =
      rw (request_step, hash_step _, reason_step _, text_step c cs _)
        (simp (append-nil, append_assoc))
  rejected-images (some t) [] h =
      rw (h.1, request_step, hash_step _, time_step t _, reason_step _)
        (simp (append-nil, append_assoc))
  rejected-images (some t) (c ∷ cs) h =
      rw (h.1, request_step, hash_step _, time_step t _, reason_step _, text_step c cs _)
        (simp (append-nil, append_assoc))

  validate_rejected-children :
      (time : Option ℕ) (description : List ℕ) (value : OwnedTlv)
      → IsRetry reason time
      → is_utf8 description ≡ true
      → parse_sequence value.value ≡ ok (children time description)
      → validate_rejected value
        ≡ ok (record (plain_item ItemKind.rejected identifier value) {
          response_to = some hash;
          rejection =
              some (record { reason = reason; retry_after = time; description = description });
        })
  unfolding validate_rejected new_cursor take next_defined next_from is_defined optional peek_type
      finish text
  validate_rejected-children none [] value h u e = rw (
    e,
    decode_u64-encode identifier fits,
    (==_iff _ _).1 size,
    decode_u64-encode _ (from-reason_code reason).1,
    (from-reason_code reason).0,
  )
  validate_rejected-children none (c ∷ cs) value h u e = rw (
    e,
    decode_u64-encode identifier fits,
    (==_iff _ _).1 size,
    decode_u64-encode _ (from-reason_code reason).1,
    (from-reason_code reason).0,
    u,
  )
  validate_rejected-children (some t) [] value h u e = rw (
    e,
    decode_u64-encode identifier fits,
    (==_iff _ _).1 size,
    decode_u64-encode t h.0,
    decode_u64-encode _ (from-reason_code reason).1,
    (from-reason_code reason).0,
    h.1,
  )
  validate_rejected-children (some t) (c ∷ cs) value h u e = rw (
    e,
    decode_u64-encode identifier fits,
    (==_iff _ _).1 size,
    decode_u64-encode t h.0,
    decode_u64-encode _ (from-reason_code reason).1,
    (from-reason_code reason).0,
    h.1,
    u,
  )

  time-IsValid : (time : Option ℕ) → IsRetry reason time → All IsValid (time_tlvs time)
  time-IsValid none h = tt
  time-IsValid (some t) h = (number-IsValid Types.timestamp t (omega arith) (omega arith) h.0, tt)

  text-IsValid :
      (description : List ℕ) → length description ≤ usize_max → All IsValid (text_tlvs description)
  text-IsValid [] h = tt
  text-IsValid (c ∷ cs) h = (record { defined = omega arith; code = omega arith; fits = h }, tt)

  children-IsValid :
      (time : Option ℕ) (description : List ℕ)
      → IsRetry reason time
      → length description ≤ usize_max
      → All IsValid (children time description)
  children-IsValid time description h b = (
    number-IsValid Types.request_identifier identifier (omega arith) (omega arith) fits,
    (
      record { defined = omega arith; code = omega arith; fits = omega (arith, size) },
      All-append IsValid (time_tlvs time) _ (time-IsValid time h) (
        number-IsValid Types.rejection_reason (reason_code reason) (omega arith) (omega arith)
            (from-reason_code reason).1,
        text-IsValid description b,
      ),
    ),
  )

  -- A Rejected response that `rejected` builds for a 32-byte hash is read back with its identifier,
  -- hash, reason, retry time and description, where only a temporary one has a retry time and the
  -- description is a text that fits.
  pub validate-rejected :
      (time : Option ℕ) (description : List ℕ)
      → IsRetry reason time
      → is_utf8 description ≡ true
      → length description ≤ usize_max
      → (value : OwnedTlv) × (rejected identifier hash time reason description ≡ ok value)
        × (validate_response value false
            ≡ ok (record (plain_item ItemKind.rejected identifier value) {
              response_to = some hash;
              rejection =
                  some (record { reason = reason; retry_after = time; description = description });
            }))
  unfolding validate_response
  validate-rejected time description h u b = (
    _,
    rejected-images time description h,
    validate_rejected-children time description _ h u
        (parse_sequence-images _ (children-IsValid time description h b)),
  )
