-- ===== src/Store/Inbound/Codec.antt =====
-- crates/tith-store/src/lib.rs: the stored form of inbound records, of the keys of claims and of the
-- tokens that are resolved.
use tith.Base.{
  ℕ, ◌==◌, if◌then◌else◌, Bool, true, false, List, [], ◌∷◌, ◌++◌, Option, none, Result, ok,
}
use tith.Wire.Item.{ItemAuthentication}
use tith.Store.Types.{Text, InboundState, StoreError, corrupt_record, unsupported_inbound_version}
use tith.Store.Bytes.{
  Reader, ◌>>=◌, ◌>>◌, return, fail, put_u64, take_u64, put_bytes, put_string, take_string,
  take_byte, take_bytes_fixed, put_optional, take_optional, put_optional_string,
  take_optional_string, put_optional_u64, take_optional_u64,
}
use tith.Store.JobCodec.{at_end}
use tith.Store.JobCodes.{take_enum}
use tith.Store.Inbound.{ItemKind, InboundRecord}

unfoldable pub item_kind_code : ItemKind → ℕ
item_kind_code ItemKind.message = 0
item_kind_code ItemKind.file = 1
item_kind_code ItemKind.file_request = 2

unfoldable pub authentication_code : ItemAuthentication → ℕ
authentication_code ItemAuthentication.origin_valid = 0
authentication_code ItemAuthentication.origin_invalid = 1
authentication_code ItemAuthentication.transport = 2
authentication_code ItemAuthentication.unsigned = 3
authentication_code ItemAuthentication.signed_origin_invalid = 4
authentication_code ItemAuthentication.signed_origin_valid = 5

unfoldable pub inbound_state_code : InboundState → ℕ
inbound_state_code InboundState.available = 0
inbound_state_code InboundState.claimed = 1
inbound_state_code InboundState.deferred = 2
inbound_state_code InboundState.consumed = 3
inbound_state_code InboundState.rejected = 4
inbound_state_code InboundState.failed = 5

unfoldable pub take_item_kind : Reader ItemKind
unfolding take_enum
take_item_kind = take_enum (ItemKind.message ∷ ItemKind.file ∷ ItemKind.file_request ∷ [])

unfoldable pub take_authentication : Reader ItemAuthentication
unfolding take_enum
take_authentication = take_enum (
    ItemAuthentication.origin_valid ∷ ItemAuthentication.origin_invalid
    ∷ ItemAuthentication.transport ∷ ItemAuthentication.unsigned
    ∷ ItemAuthentication.signed_origin_invalid ∷ ItemAuthentication.signed_origin_valid ∷ [])

unfoldable pub take_inbound_state : Reader InboundState
unfolding take_enum
take_inbound_state = take_enum (
    InboundState.available ∷ InboundState.claimed ∷ InboundState.deferred ∷ InboundState.consumed
    ∷ InboundState.rejected ∷ InboundState.failed ∷ [])

unfoldable pub encode_record : InboundRecord → List ℕ
encode_record value =
    1
    ∷ (put_string value.inbound_id
        ++ (put_string value.application
            ++ (put_string value.local_identity
                ++ (put_string value.peer
                    ++ (value.peer_key
                        ++ (put_u64 value.received
                            ++ (put_u64 value.changed
                                ++ (put_u64 value.payload_size
                                    ++ (put_u64 value.attempts
                                        ++ (put_u64 value.eligible_at
                                            ++ ((item_kind_code value.kind ∷ [])
                                                ++ ((authentication_code value.authentication ∷ [])
                                                    ++ ((inbound_state_code value.state ∷ [])
                                                        ++ (value.payload_hash
                                                            ++ (put_optional_string value.claim_key
                                                            ++ (put_optional_string
                                                            value.claim_token
                                                            ++ (put_optional_string
                                                            value.last_result
                                                            ++ (put_optional_u64 value.claim_expires
                                                            ++ put_optional_string
                                                            value.forward_job))))))))))))))))))

-- A record of the form that ends before it has no forward job.
unfoldable pub take_forward_job : Reader (Option Text)
take_forward_job [] = ok (none, [])
take_forward_job (byte ∷ input) = take_optional_string (byte ∷ input)

unfoldable pub take_record : Reader InboundRecord
take_record = do
  inbound_id ← take_string
  application ← take_string
  local_identity ← take_string
  peer ← take_string
  peer_key ← take_bytes_fixed 32
  received ← take_u64
  changed ← take_u64
  payload_size ← take_u64
  attempts ← take_u64
  eligible_at ← take_u64
  kind ← take_item_kind
  authentication ← take_authentication
  state ← take_inbound_state
  payload_hash ← take_bytes_fixed 32
  claim_key ← take_optional_string
  claim_token ← take_optional_string
  last_result ← take_optional_string
  claim_expires ← take_optional_u64
  forward_job ← take_forward_job
  return (record {
    inbound_id = inbound_id;
    application = application;
    local_identity = local_identity;
    peer = peer;
    peer_key = peer_key;
    received = received;
    changed = changed;
    kind = kind;
    authentication = authentication;
    payload_size = payload_size;
    payload_hash = payload_hash;
    state = state;
    attempts = attempts;
    eligible_at = eligible_at;
    claim_key = claim_key;
    claim_token = claim_token;
    claim_expires = claim_expires;
    last_result = last_result;
    forward_job = forward_job;
  })

unfoldable pub take_record_version : Reader (Unit {0})
take_record_version = do
  version ← take_byte
  if version == 1 then return tt else fail (unsupported_inbound_version version)

unfoldable pub decode_record : List ℕ → Result StoreError InboundRecord
unfolding take_record_version at_end
decode_record input = at_end ((take_record_version >> take_record) input)

unfoldable pub claim_mapping_key : Text → Text → List ℕ
unfolding put_bytes
claim_mapping_key application key = put_bytes application ++ key

-- What a key of a claim stands for: the record, the token, and the state it was resolved to.
abbrev pub Mapping : Type 0
Mapping = Text × Text × Option InboundState

unfoldable pub encode_mapping : Mapping → List ℕ
encode_mapping (id, token, state) =
    put_string id
    ++ (put_string token ++ put_optional (λ value. inbound_state_code value ∷ []) state)

unfoldable pub take_mapping : Reader Mapping
take_mapping = do
  id ← take_string
  token ← take_string
  state ← take_optional take_inbound_state
  return (id, token, state)

unfoldable pub decode_mapping : List ℕ → Result StoreError Mapping
unfolding at_end take_mapping
decode_mapping input = at_end (take_mapping input)

-- What became of a token: the record, its state, and whether the holder resolved it.
abbrev pub TokenResolution : Type 0
TokenResolution = Text × InboundState × Bool

unfoldable pub flag_code : Bool → ℕ
flag_code false = 0
flag_code true = 1

unfoldable pub encode_token_resolution : TokenResolution → List ℕ
encode_token_resolution (id, state, completed) =
    put_string id ++ inbound_state_code state ∷ flag_code completed ∷ []

unfoldable pub take_completed : Reader Bool
take_completed = do
  tag ← take_byte
  if tag == 0 then return false else if tag == 1 then return true else fail corrupt_record

unfoldable pub take_token_resolution : Reader TokenResolution
take_token_resolution = do
  id ← take_string
  state ← take_inbound_state
  completed ← take_completed
  return (id, state, completed)

unfoldable pub decode_token_resolution : List ℕ → Result StoreError TokenResolution
unfolding at_end take_token_resolution
decode_token_resolution input = at_end (take_token_resolution input)
