-- ===== src/Store/Inbound/Runs.antt =====
-- An inbound record is claimed and resolved, twice each, in tables that are lists.
use tith.Base.{ℕ, ◌≡◌, refl, arith, List, [], ◌∷◌, none, some, ok}
use tith.Wire.Cursor.{is_utf8}
use tith.Base.{◌+◌, pos, Result}
use tith.Wire.Address.{TlvHash}
use tith.Wire.Tlv.{parse_sequence, parse_loop, parse_next}
use tith.Wire.Integer.{decode_u64_prefix, decode_loop}
use tith.Wire.Item.{ItemAuthentication, SignedItemIdentity, SignedItemKind}
use tith.Store.Events.{decimal, decimal_from}
use tith.Store.Inbound.Accept.{
  address_text, int_text, encode_duplicate_identity, NewInbound, stored, duplicate, new_record,
  accept, checked_kind, store_new, known, remember, allocate, kind_of, is_carried, may_identify,
  accept-accept,
}
use tith.Store.Types.{Text, InboundState, StoreError}
use tith.Store.Bytes.Reading.{IsText}
use tith.Store.Table.{Entries, find, put, Tables}
use tith.Store.Inbound.{ItemKind, InboundRecord, Claim, completed, Resolution}
use tith.Store.Inbound.Codec.{encode_record, encode_mapping, claim_mapping_key, inbound_state_code}
use tith.Store.Inbound.Reading.{IsStorableRecord, decode-encode_record}
use tith.Store.Inbound.Resolved.{resolve-resolve}
use tith.Store.Inbound.Claimed.{claim_refreshed-claim_refreshed}
use tith.Store.Inbound.Operations.{
  InboundDb, query_record, resolve, resolve_token, resolve_claimed, store_resolution,
  claim_refreshed, claim_keyed, claim_new,
}
use tith.Store.Inbound.Steps.{
  resolve_record, outcome_of, is_lost, claim_record, claim_from, may_claim, select_record,
}

instance abbrev entries_tables : Tables (Entries (List ℕ))
entries_tables = record {
  get = find;
  insert = put;
  iter = λ table. table;
  get-iter = λ key table. refl;
  iter-insert = λ key value table. refl;
}

abbrev waiting : InboundRecord
waiting = record {
  inbound_id = 73 ∷ [];
  application = 112 ∷ [];
  local_identity = 97 ∷ [];
  peer = 98 ∷ [];
  peer_key =
      1 ∷ 2 ∷ 3 ∷ 4 ∷ 5 ∷ 6 ∷ 7 ∷ 8 ∷ 1 ∷ 2 ∷ 3 ∷ 4 ∷ 5 ∷ 6 ∷ 7 ∷ 8 ∷ 1 ∷ 2 ∷ 3 ∷ 4 ∷ 5 ∷ 6 ∷ 7 ∷ 8
      ∷ 1 ∷ 2 ∷ 3 ∷ 4 ∷ 5 ∷ 6 ∷ 7 ∷ 8 ∷ [];
  received = 5;
  changed = 5;
  kind = ItemKind.message;
  authentication = ItemAuthentication.origin_valid;
  payload_size = 3;
  payload_hash =
      1 ∷ 2 ∷ 3 ∷ 4 ∷ 5 ∷ 6 ∷ 7 ∷ 8 ∷ 1 ∷ 2 ∷ 3 ∷ 4 ∷ 5 ∷ 6 ∷ 7 ∷ 8 ∷ 1 ∷ 2 ∷ 3 ∷ 4 ∷ 5 ∷ 6 ∷ 7 ∷ 8
      ∷ 1 ∷ 2 ∷ 3 ∷ 4 ∷ 5 ∷ 6 ∷ 7 ∷ 8 ∷ [];
  state = InboundState.available;
  attempts = 0;
  eligible_at = 5;
  claim_key = none;
  claim_token = none;
  claim_expires = none;
  last_result = none;
  forward_job = none;
}

abbrev token : Text
token = 67 ∷ []

abbrev claim_key : Text
claim_key = 107 ∷ []

abbrev claimed : InboundRecord
claimed = record waiting {
  state = InboundState.claimed;
  changed = 10;
  attempts = 1;
  claim_key = some claim_key;
  claim_token = some token;
  claim_expires = some 30;
}

waiting-IsStorable : IsStorableRecord waiting
unfolding is_utf8
waiting-IsStorable = record {
  inbound_id = (refl, omega arith);
  application = (refl, omega arith);
  local_identity = (refl, omega arith);
  peer = (refl, omega arith);
  peer_key = refl;
  received = omega arith;
  changed = omega arith;
  payload_size = omega arith;
  attempts = omega arith;
  eligible_at = omega arith;
  payload_hash = refl;
  claim_key = tt;
  claim_token = tt;
  last_result = tt;
  claim_expires = tt;
  forward_job = tt;
}

claimed-IsStorable : IsStorableRecord claimed
unfolding is_utf8
claimed-IsStorable = record {
  inbound_id = (refl, omega arith);
  application = (refl, omega arith);
  local_identity = (refl, omega arith);
  peer = (refl, omega arith);
  peer_key = refl;
  received = omega arith;
  changed = omega arith;
  payload_size = omega arith;
  attempts = omega arith;
  eligible_at = omega arith;
  payload_hash = refl;
  claim_key = (refl, omega arith);
  claim_token = (refl, omega arith);
  last_result = tt;
  claim_expires = omega arith;
  forward_job = tt;
}

abbrev waiting_db : InboundDb (Entries (List ℕ))
waiting_db = record {
  records = (73 ∷ [], encode_record waiting) ∷ [];
  payloads = (73 ∷ [], 1 ∷ []) ∷ [];
  claim_keys = [];
  resolved_tokens = [];
  duplicates = [];
}

abbrev claimed_db : InboundDb (Entries (List ℕ))
claimed_db = record waiting_db {
  records = (73 ∷ [], encode_record claimed) ∷ [];
  claim_keys = (claim_mapping_key (112 ∷ []) claim_key, encode_mapping (73 ∷ [], token, none)) ∷ [];
}

abbrev held : Claim
held = record { inbound_id = 73 ∷ []; claim_token = token; expires = 30; record_of = claimed }

token-IsText : IsText token
unfolding is_utf8
token-IsText = (refl, omega arith)

claim_key-IsText : IsText claim_key
unfolding is_utf8
claim_key-IsText = (refl, omega arith)

waiting-claimed :
    claim_refreshed (112 ∷ []) claim_key 10 20 token waiting_db ≡ ok (completed held, claimed_db)
unfolding claim_refreshed claim_keyed claim_new claim_record claim_from may_claim select_record
    inbound_state_code
waiting-claimed = rw (decode-encode_record waiting waiting-IsStorable)

claim_refreshed-claim_refreshed_example :
    claim_refreshed (112 ∷ []) claim_key 20 99 (88 ∷ []) claimed_db
    ≡ ok (completed held, claimed_db)
claim_refreshed-claim_refreshed_example =
    claim_refreshed-claim_refreshed (112 ∷ []) claim_key 10 20 20 99 token (88 ∷ []) waiting_db
      claimed_db held ((73 ∷ [], waiting) ∷ []) refl (waiting-IsStorable, tt) (omega arith)
      claim_key-IsText token-IsText waiting-claimed (omega arith)

abbrev consumed_db : InboundDb (Entries (List ℕ))
consumed_db =
    store_resolution (73 ∷ []) token claim_key
      (resolve_record 15 (outcome_of Resolution.acknowledge 15 claimed) claimed) claimed_db

claimed-read : query_record (73 ∷ []) claimed_db ≡ ok claimed
unfolding query_record
claimed-read = decode-encode_record claimed claimed-IsStorable

claimed-resolved :
    resolve (112 ∷ []) (73 ∷ []) token 15 Resolution.acknowledge claimed_db
    ≡ ok (InboundState.consumed, consumed_db)
unfolding resolve resolve_token resolve_claimed is_lost inbound_state_code outcome_of
claimed-resolved = rw claimed-read

resolve-resolve_example :
    resolve (112 ∷ []) (73 ∷ []) token 99 Resolution.release consumed_db
    ≡ ok (InboundState.consumed, consumed_db)
resolve-resolve_example =
    resolve-resolve (112 ∷ []) (73 ∷ []) token 15 99 Resolution.acknowledge Resolution.release
      claimed_db consumed_db claimed InboundState.consumed claimed-read claimed-IsStorable
      waiting-IsStorable.inbound_id (omega arith) tt claimed-resolved

-- A signed message of one byte, accepted twice.
abbrev identity : SignedItemIdentity
identity = record {
  kind = SignedItemKind.message;
  signer = record {
    address = record { domain = 110 ∷ []; zone = pos 1; net = pos 2; node = pos 0; point = 0 };
    public_key = 1 ∷ [];
  };
  signature = 9 ∷ [];
}

-- "n#1:2".
address_test : address_text identity.signer.address ≡ 110 ∷ 35 ∷ 49 ∷ 58 ∷ 50 ∷ []
unfolding address_text int_text decimal decimal_from
address_test = refl

abbrev arriving : NewInbound
arriving = record {
  application = 112 ∷ [];
  local_identity = 97 ∷ [];
  peer = 98 ∷ [];
  peer_key = waiting.peer_key;
  received = 5;
  authentication = ItemAuthentication.origin_valid;
  payload = 64 ∷ 1 ∷ 7 ∷ [];
}

abbrev hash_any : List ℕ → Result StoreError TlvHash
hash_any payload = ok waiting.payload_hash

abbrev candidates : ℕ → Text
candidates n = (73 + n) ∷ []

abbrev arrived : InboundRecord
arrived = new_record (73 ∷ []) ItemKind.message waiting.payload_hash arriving

abbrev empty_db : InboundDb (Entries (List ℕ))
empty_db = record {
  records = [];
  payloads = [];
  claim_keys = [];
  resolved_tokens = [];
  duplicates = [];
}

abbrev arrived_db : InboundDb (Entries (List ℕ))
arrived_db = record empty_db {
  records = (73 ∷ [], encode_record arrived) ∷ [];
  payloads = (73 ∷ [], arriving.payload) ∷ [];
  duplicates = (encode_duplicate_identity identity, 73 ∷ []) ∷ [];
}

arriving-stored :
    accept hash_any 1 candidates arriving (some identity) empty_db ≡ ok (stored arrived, arrived_db)
unfolding accept checked_kind store_new known remember allocate new_record kind_of is_carried
    may_identify parse_sequence parse_loop parse_next decode_u64_prefix decode_loop
arriving-stored = refl

accept-accept_example :
    accept hash_any 9 candidates arriving (some identity) arrived_db
    ≡ ok (duplicate (73 ∷ []), arrived_db)
unfolding new_record
accept-accept_example =
    accept-accept hash_any 1 9 candidates candidates arriving identity empty_db arrived_db arrived
      arriving-stored
