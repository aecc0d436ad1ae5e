-- ===== src/Wire/Carrier/Responses.antt =====
-- crates/tith-wire/src/item_carrier.rs: what the builders of responses make is what
-- `validate_response` reads.
use tith.Base.{ℕ, ◌≡◌, ◌≢◌, ◌≤◌, arith, true, ◌==◌, ==_iff, List, [], ◌∷◌, length, All, some, ok}
use tith.Wire.Address.{PublicKey, TlvHash}
use tith.Wire.Integer.{IsU64, encode_u64}
use tith.Wire.Integer.Codec.{decode_u64-encode}
use tith.Wire.Tlv.{OwnedTlv, parse_sequence}
use tith.Wire.Tlv.Codec.{IsValid}
use tith.Wire.Tlv.Sequence.{images, parse_sequence-images}
use tith.Wire.Types
use tith.Wire.Types.{is_defined}
use tith.Wire.Item.{ItemKind}
use tith.Wire.Cursor.{
  new_cursor, next_from, next_defined, take, optional, finish, peek_type, parse_public_key,
}
use tith.Wire.Cursor.Walk.{encoded_prefix-images, number-IsValid}
use tith.Wire.Carrier.{
  carrier_value, plain_item, validate_response, validate_accepted, accepted, accepted_public_key,
}

-- A type code of the carriers is defined, fits, and is not zero.
small-IsValid :
    (type_code : ℕ) (value : List ℕ)
    → type_code ≢ 0
    → type_code ≤ 255
    → length value ≤ 32
    → IsValid (record { type_code = type_code; value = value })
small-IsValid type_code value d c h = record {
  defined = d;
  code = omega (arith, c);
  fits = omega (arith, h);
}

module _ (identifier : ℕ) (fits : IsU64 identifier) (hash : TlvHash) (size : length hash ≡ 32) where
  abbrev request_tlv : OwnedTlv
  request_tlv = record { type_code = Types.request_identifier; value = encode_u64 identifier }

  abbrev hash_tlv : OwnedTlv
  hash_tlv = record { type_code = Types.tlv_hash; value = hash }

  two-IsValid : All IsValid (request_tlv ∷ hash_tlv ∷ [])
  two-IsValid = (
    number-IsValid Types.request_identifier identifier (omega arith) (omega arith) fits,
    (small-IsValid Types.tlv_hash hash (omega arith) (omega arith) (omega (arith, size)), tt),
  )

  accepted-images :
      accepted identifier hash
      ≡ ok (record { type_code = Types.accepted; value = images (request_tlv ∷ hash_tlv ∷ []) })
  unfolding accepted carrier_value
  accepted-images = rw (encoded_prefix-images (request_tlv ∷ hash_tlv ∷ []) two-IsValid)

  size_test : (length hash == 32) ≡ true
  size_test = (==_iff _ _).1 size

  validate_accepted-images :
      (value : OwnedTlv)
      → parse_sequence value.value ≡ ok (request_tlv ∷ hash_tlv ∷ [])
      → validate_accepted value
        ≡ ok (record (plain_item ItemKind.accepted identifier value) { response_to = some hash })
  unfolding validate_accepted new_cursor take next_defined next_from is_defined optional peek_type
      finish
  validate_accepted-images value e = rw (e, decode_u64-encode identifier fits, size_test)

  -- An Accepted response that `accepted` builds for a 32-byte hash is read back with its identifier
  -- and its hash.
  pub validate-accepted :
      (value : OwnedTlv) × (accepted identifier hash ≡ ok value)
      × (validate_response value true
          ≡ ok (record (plain_item ItemKind.accepted identifier value) { response_to = some hash }))
  unfolding validate_response
  validate-accepted = (
    _,
    accepted-images,
    validate_accepted-images _ (parse_sequence-images (request_tlv ∷ hash_tlv ∷ []) two-IsValid),
  )

  abbrev key_tlv : PublicKey → OwnedTlv
  key_tlv key = record { type_code = Types.public_key; value = key }

  module _ (key : PublicKey) (key_size : length key ≡ 32) where
    three-IsValid : All IsValid (request_tlv ∷ hash_tlv ∷ key_tlv key ∷ [])
    three-IsValid = (
      two-IsValid.0,
      (
        two-IsValid.1.0,
        (
          small-IsValid Types.public_key key (omega arith) (omega arith) (omega (arith, key_size)),
          tt,
        ),
      ),
    )

    validate_key-images :
        (value : OwnedTlv)
        → parse_sequence value.value ≡ ok (request_tlv ∷ hash_tlv ∷ key_tlv key ∷ [])
        → validate_accepted value
          ≡ ok (record (plain_item ItemKind.accepted identifier value) {
            response_to = some hash;
            response_public_key = some key;
          })
    unfolding validate_accepted new_cursor take next_defined next_from is_defined optional peek_type
        finish parse_public_key
    validate_key-images value e =
        rw (e, decode_u64-encode identifier fits, size_test, (==_iff _ _).1 key_size)

    key-images :
        accepted_public_key identifier hash key
        ≡ ok (record {
          type_code = Types.accepted;
          value = images (request_tlv ∷ hash_tlv ∷ key_tlv key ∷ []);
        })
    unfolding accepted_public_key carrier_value
    key-images =
        rw (encoded_prefix-images (request_tlv ∷ hash_tlv ∷ key_tlv key ∷ []) three-IsValid)

    -- An Accepted response that certifies a 32-byte key is read back with the key.
    pub validate-accepted_public_key :
        (value : OwnedTlv) × (accepted_public_key identifier hash key ≡ ok value)
        × (validate_response value true
            ≡ ok (record (plain_item ItemKind.accepted identifier value) {
              response_to = some hash;
              response_public_key = some key;
            }))
    unfolding validate_response
    validate-accepted_public_key = (
      _,
      key-images,
      validate_key-images _
          (parse_sequence-images (request_tlv ∷ hash_tlv ∷ key_tlv key ∷ []) three-IsValid),
    )
