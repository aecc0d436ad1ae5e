-- ===== src/Wire/Carrier.antt =====
-- crates/tith-wire/src/item_carrier.rs: requests and responses, and the request identifier of an item.
pub mod Responses
pub mod Rejections
pub mod Identifiers
mod Runs
use tith.Base.{
  ℕ, zero, suc, ◌+◌, Bool, true, false, not, ◌&&◌, ◌==◌, if◌then◌else◌, List, [], ◌∷◌, map, filter,
  length, Option, none, some, Result, ok, err, ◌>>=◌, ◌>>◌, map_err, ok_or, ensure,
}
use tith.Base.Options.{is_some, unwrap_or, then_some}
use tith.Wire.Address.{PublicKey, TlvHash}
use tith.Wire.Integer.{encode_u64, decode_u64}
use tith.Wire.Tlv.{OwnedTlv, new_tlv, parse_sequence, encode, write_to}
use tith.Wire.Types
use tith.Wire.Item.{
  ItemKind, RejectionReason, permanent, condition_unmet, temporary, from_code, reason_code,
  Rejection, ValidatedItem,
}
use tith.Wire.Cursor.{
  Label, BundleError, framing, integer, missing, unexpected, wrong_length, panic, Cursor,
  new_cursor, take, optional, finish, text, parse_public_key, encoded_prefix, encoded_onto,
}
use tith.Wire.Cursor

unfoldable pub carrier_value : ℕ → List ℕ → Result BundleError OwnedTlv
unfolding new_tlv
carrier_value type_code value = map_err (λ _. panic) (new_tlv type_code value)

-- The item of a request or a response, with what the kinds do not share left out.
abbrev pub plain_item : ItemKind → ℕ → OwnedTlv → ValidatedItem
plain_item kind identifier raw = record {
  kind = kind;
  request_identifier = identifier;
  duplicate_identity = none;
  authentication = none;
  response_to = none;
  response_public_key = none;
  rejection = none;
  provenance = none;
  destination = none;
  area = none;
  raw = raw;
}

unfoldable pub simple_request : OwnedTlv → ItemKind → Result BundleError ValidatedItem
simple_request value kind = do
  children ← map_err framing (parse_sequence value.value)
  ((_, identifier_tlv), cursor) ←
      take (new_cursor children) Types.request_identifier Cursor.request_identifier
  identifier ← map_err integer (decode_u64 identifier_tlv.value)
  finish cursor
  ok (plain_item kind identifier value)

unfoldable pub validate_public_key_request : OwnedTlv → Result BundleError ValidatedItem
unfolding simple_request
validate_public_key_request value = simple_request value ItemKind.public_key_request

-- `.map(|(_, value)| f(value)).transpose()?`.
abbrev pub transposed :
    {A : Type 0}
    → (OwnedTlv → Result BundleError A)
    → Option (ℕ × OwnedTlv)
    → Result BundleError (Option A)
transposed f none = ok none
transposed f (some (index, value)) = do result ← f value; ok (some result)

unfoldable pub validate_accepted : OwnedTlv → Result BundleError ValidatedItem
validate_accepted value = do
  children ← map_err framing (parse_sequence value.value)
  ((_, request), cursor) ←
      take (new_cursor children) Types.request_identifier Cursor.accepted_request_identifier
  identifier ← map_err integer (decode_u64 request.value)
  ((_, hash), cursor') ← take cursor Types.tlv_hash Cursor.accepted_tlv_hash
  ensure (length hash.value == 32) (wrong_length Cursor.tlv_hash)
  let (key, cursor'') = optional cursor' Types.public_key
  response_public_key ← transposed parse_public_key key
  finish cursor''
  ok (record (plain_item ItemKind.accepted identifier value) {
    response_to = some hash.value;
    response_public_key = response_public_key;
  })

-- The description is not the empty text.
abbrev pub is_blank : Option (List ℕ) → Bool
is_blank (some []) = true
is_blank _ = false

abbrev pub is_temporary : RejectionReason → Bool
is_temporary temporary = true
is_temporary _ = false

unfoldable pub validate_rejected : OwnedTlv → Result BundleError ValidatedItem
unfolding from_code
validate_rejected value = do
  children ← map_err framing (parse_sequence value.value)
  ((_, request), cursor) ←
      take (new_cursor children) Types.request_identifier Cursor.rejected_request_identifier
  identifier ← map_err integer (decode_u64 request.value)
  ((_, hash), cursor1) ← take cursor Types.tlv_hash Cursor.rejected_tlv_hash
  ensure (length hash.value == 32) (wrong_length Cursor.rejected_tlv_hash)
  let (time, cursor2) = optional cursor1 Types.timestamp
  retry_after ← transposed (λ v. map_err integer (decode_u64 v.value)) time
  ((_, reason_tlv), cursor3) ← take cursor2 Types.rejection_reason Cursor.rejected_rejection_reason
  code ← map_err integer (decode_u64 reason_tlv.value)
  reason ← ok_or (unexpected Cursor.rejected_reason) (from_code code)
  ensure (not (is_some retry_after && not (is_temporary reason)))
      (unexpected Cursor.rejected_timestamp)
  let (words, cursor4) = optional cursor3 Types.rejection_description
  description ← transposed text words
  ensure (not (is_blank description)) (unexpected Cursor.empty_rejection_description)
  finish cursor4
  ok (record (plain_item ItemKind.rejected identifier value) {
    response_to = some hash.value;
    rejection = some (record {
      reason = reason;
      retry_after = retry_after;
      description = unwrap_or [] description;
    });
  })

unfoldable pub validate_response : OwnedTlv → Bool → Result BundleError ValidatedItem
unfolding validate_accepted validate_rejected
validate_response value true = validate_accepted value
validate_response value false = validate_rejected value

unfoldable pub accepted : ℕ → TlvHash → Result BundleError OwnedTlv
unfolding carrier_value
accepted identifier response_to = do
  request ← carrier_value Types.request_identifier (encode_u64 identifier)
  hash ← carrier_value Types.tlv_hash response_to
  bytes ← encoded_prefix (request ∷ hash ∷ [])
  carrier_value Types.accepted bytes

unfoldable pub accepted_public_key : ℕ → TlvHash → PublicKey → Result BundleError OwnedTlv
unfolding carrier_value
accepted_public_key identifier response_to public_key = do
  request ← carrier_value Types.request_identifier (encode_u64 identifier)
  hash ← carrier_value Types.tlv_hash response_to
  key ← carrier_value Types.public_key public_key
  bytes ← encoded_prefix (request ∷ hash ∷ key ∷ [])
  carrier_value Types.accepted bytes

unfoldable pub public_key_request : ℕ → Result BundleError OwnedTlv
unfolding carrier_value
public_key_request identifier = do
  child ← carrier_value Types.request_identifier (encode_u64 identifier)
  bytes ← ok_or panic (encode child)
  carrier_value Types.public_key_request bytes

-- `carrier_value(..).write_to(&mut value).expect(..)`.
unfoldable pub append_value : ℕ → List ℕ → List ℕ → Result BundleError (List ℕ)
unfolding carrier_value
append_value type_code bytes output = do
  tlv ← carrier_value type_code bytes
  map_err (λ _. panic) (write_to tlv output)

unfoldable pub rejected :
    ℕ → TlvHash → Option ℕ → RejectionReason → List ℕ → Result BundleError OwnedTlv
unfolding append_value
rejected identifier response_to time reason description = do
  ensure (not (is_some time && not (is_temporary reason))) (unexpected Cursor.rejected_timestamp)
  value ← append_value Types.request_identifier (encode_u64 identifier) []
  value1 ← append_value Types.tlv_hash response_to value
  value2 ← elim time [
    | none ↦ ok value1
    | some t ↦ append_value Types.timestamp (encode_u64 t) value1
  ]
  value3 ← append_value Types.rejection_reason (encode_u64 (reason_code reason)) value2
  value4 ← elim description [
    | [] ↦ ok value3
    | c ∷ cs ↦ append_value Types.rejection_description (c ∷ cs) value3
  ]
  carrier_value Types.rejected value4

-- The first of the identifiers, if it is the only one.
abbrev pub only : List (Option ℕ) → Option ℕ
only (identifier ∷ []) = identifier
only _ = none

abbrev pub ok_integer : {E : Type 0} → Result E ℕ → Option ℕ
ok_integer (ok n) = some n
ok_integer (err e) = none

unfoldable pub identifiers : List OwnedTlv → List (Option ℕ)
identifiers [] = []
identifiers (child ∷ children) =
    let others = identifiers children in
    if child.type_code == Types.request_identifier
    then ok_integer (decode_u64 child.value) ∷ others
    else others

unfoldable pub request_identifier : OwnedTlv → Option ℕ
request_identifier value = elim (parse_sequence value.value) [
  | err e ↦ none
  | ok children ↦ only (identifiers children)
]

-- The loop over the children, with the count of those it changes.
unfoldable pub renumber : ℕ → List OwnedTlv → List OwnedTlv × ℕ
renumber identifier [] = ([], 0)
renumber identifier (child ∷ children) =
    let (others, found) = renumber identifier children in
    if child.type_code == Types.request_identifier
    then (record child { value = encode_u64 identifier } ∷ others, found + 1)
    else (child ∷ others, found)

unfoldable pub set_request_identifier : OwnedTlv → ℕ → Result BundleError OwnedTlv
unfolding new_tlv
set_request_identifier value identifier = do
  children ← map_err framing (parse_sequence value.value)
  let (children', found) = renumber identifier children
  ensure (found == 1) (missing Cursor.one_request_identifier)
  bytes ← encoded_prefix children'
  map_err framing (new_tlv value.type_code bytes)
