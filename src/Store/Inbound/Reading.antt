-- ===== src/Store/Inbound/Reading.antt =====
-- crates/tith-store/src/lib.rs: stored inbound records, mappings and resolutions are read back.
use tith.Base.{
  ℕ, ◌≡◌, refl, ◌∙◌, Bool, true, false, List, [], ◌∷◌, append-nil, length, Option, none, some, ok,
}
use tith.Wire.Integer.{IsU64}
use tith.Wire.Item.{ItemAuthentication}
use tith.Store.Types.{Text, InboundState}
use tith.Store.Bytes.{
  take_byte, put_optional, take_optional, put_optional_string, take_optional_string,
}
use tith.Store.Bytes.Reading.{
  IsText, IsOptional, take_u64-put, take_string-put, take_bytes_fixed-append,
  take_optional_string-put, take_optional_u64-put,
}
use tith.Store.JobCodec.{at_end}
use tith.Store.JobCodes.{pick}
use tith.Store.Inbound.{ItemKind, InboundRecord}
use tith.Store.Inbound.Codec.{
  item_kind_code, authentication_code, inbound_state_code, take_item_kind, take_authentication,
  take_inbound_state, encode_record, take_forward_job, take_record, take_record_version,
  decode_record, Mapping, encode_mapping, take_mapping, decode_mapping, TokenResolution, flag_code,
  encode_token_resolution, take_completed, take_token_resolution, decode_token_resolution,
}

take_item_kind-code :
    (value : ItemKind) (rest : List ℕ)
    → take_item_kind (item_kind_code value ∷ rest) ≡ ok (value, rest)
unfolding take_item_kind item_kind_code pick take_byte
take_item_kind-code ItemKind.message rest = refl
take_item_kind-code ItemKind.file rest = refl
take_item_kind-code ItemKind.file_request rest = refl

take_authentication-code :
    (value : ItemAuthentication) (rest : List ℕ)
    → take_authentication (authentication_code value ∷ rest) ≡ ok (value, rest)
unfolding take_authentication authentication_code pick take_byte
take_authentication-code ItemAuthentication.origin_valid rest = refl
take_authentication-code ItemAuthentication.origin_invalid rest = refl
take_authentication-code ItemAuthentication.transport rest = refl
take_authentication-code ItemAuthentication.unsigned rest = refl
take_authentication-code ItemAuthentication.signed_origin_invalid rest = refl
take_authentication-code ItemAuthentication.signed_origin_valid rest = refl

take_inbound_state-code :
    (value : InboundState) (rest : List ℕ)
    → take_inbound_state (inbound_state_code value ∷ rest) ≡ ok (value, rest)
unfolding take_inbound_state inbound_state_code pick take_byte
take_inbound_state-code InboundState.available rest = refl
take_inbound_state-code InboundState.claimed rest = refl
take_inbound_state-code InboundState.deferred rest = refl
take_inbound_state-code InboundState.consumed rest = refl
take_inbound_state-code InboundState.rejected rest = refl
take_inbound_state-code InboundState.failed rest = refl

-- What the encoding of a record needs: texts in UTF-8, numbers of 64 bits, a key and a hash of 32 bytes.
pub record IsStorableRecord (value : InboundRecord) : Type 0 where
  pub inbound_id : IsText value.inbound_id
  pub application : IsText value.application
  pub local_identity : IsText value.local_identity
  pub peer : IsText value.peer
  pub peer_key : length value.peer_key ≡ 32
  pub received : IsU64 value.received
  pub changed : IsU64 value.changed
  pub payload_size : IsU64 value.payload_size
  pub attempts : IsU64 value.attempts
  pub eligible_at : IsU64 value.eligible_at
  pub payload_hash : length value.payload_hash ≡ 32
  pub claim_key : IsOptional IsText value.claim_key
  pub claim_token : IsOptional IsText value.claim_token
  pub last_result : IsOptional IsText value.last_result
  pub claim_expires : IsOptional IsU64 value.claim_expires
  pub forward_job : IsOptional IsText value.forward_job

forward_job-starts :
    (job : Option Text)
    → take_forward_job (put_optional_string job) ≡ take_optional_string (put_optional_string job)
unfolding take_forward_job put_optional_string put_optional
forward_job-starts none = refl
forward_job-starts (some job) = refl

take_forward_job-put :
    (job : Option Text)
    → IsOptional IsText job
    → take_forward_job (put_optional_string job) ≡ ok (job, [])
take_forward_job-put job h =
    forward_job-starts job
    ∙ rw (← append-nil (put_optional_string job), take_optional_string-put job [] h)

pub decode-encode_record :
    (value : InboundRecord)
    → IsStorableRecord value
    → decode_record (encode_record value) ≡ ok value
unfolding decode_record encode_record take_record_version take_record at_end take_byte
decode-encode_record value h = rw (
  take_string-put value.inbound_id _ h.inbound_id,
  take_string-put value.application _ h.application,
  take_string-put value.local_identity _ h.local_identity,
  take_string-put value.peer _ h.peer,
  take_bytes_fixed-append 32 value.peer_key _ h.peer_key,
  take_u64-put value.received _ h.received,
  take_u64-put value.changed _ h.changed,
  take_u64-put value.payload_size _ h.payload_size,
  take_u64-put value.attempts _ h.attempts,
  take_u64-put value.eligible_at _ h.eligible_at,
  take_item_kind-code value.kind _,
  take_authentication-code value.authentication _,
  take_inbound_state-code value.state _,
  take_bytes_fixed-append 32 value.payload_hash _ h.payload_hash,
  take_optional_string-put value.claim_key _ h.claim_key,
  take_optional_string-put value.claim_token _ h.claim_token,
  take_optional_string-put value.last_result _ h.last_result,
  take_optional_u64-put value.claim_expires _ h.claim_expires,
  take_forward_job-put value.forward_job h.forward_job,
)

take_completed-code : (flag : Bool) → take_completed (flag_code flag ∷ []) ≡ ok (flag, [])
unfolding take_completed flag_code take_byte
take_completed-code false = refl
take_completed-code true = refl

pub decode-encode_token_resolution :
    (value : TokenResolution)
    → IsText value.0
    → decode_token_resolution (encode_token_resolution value) ≡ ok value
unfolding decode_token_resolution encode_token_resolution take_token_resolution at_end
decode-encode_token_resolution value h =
    rw (take_string-put value.0 _ h, take_inbound_state-code value.1 _, take_completed-code value.2)

mapping_state-put :
    (state : Option InboundState)
    → take_optional take_inbound_state (put_optional (λ value. inbound_state_code value ∷ []) state)
      ≡ ok (state, [])
unfolding put_optional take_optional take_byte
mapping_state-put none = refl
mapping_state-put (some state) = rw (take_inbound_state-code state [])

pub decode-encode_mapping :
    (value : Mapping)
    → IsText value.0
    → IsText value.1
    → decode_mapping (encode_mapping value) ≡ ok value
unfolding decode_mapping encode_mapping take_mapping at_end
decode-encode_mapping value h h' =
    rw (take_string-put value.0 _ h, take_string-put value.1 _ h', mapping_state-put value.2)
