-- ===== src/Store/Inbound/Accept.antt =====
-- crates/tith-store/src/inbound_accept.rs, inbound_identifier.rs and duplicate_identity.rs: an item is
-- stored once, with the `Display` of crates/tith-wire/src/address.rs. The hash of an item and the
-- identifiers that the random source of the system gives are arguments.
use tith.Base.{
  ℕ, zero, suc, ◌+◌, ◌≡◌, ◌≢◌, sym, ap, ◌∙◌, Bool, true, false, ◌==◌, ◌&&◌, ◌=?◌, nat_eq, int_eq,
  list_eq, if◌then◌else◌, List, [], ◌∷◌, ◌++◌, length, ℤ, pos, negsuc, minus_one, Option, none,
  some, Result, ok, err, ensure, ◌>>=◌, ◌>>◌, >>=-eq-ok, ok-injective,
}
use tith.Wire.Address.{Address, PublicKey, TlvHash}
use tith.Wire.Item.{ItemAuthentication, SignedItemIdentity, SignedItemKind}
use tith.Wire.Tlv.{OwnedTlv, parse_sequence}
use tith.Wire.Types
use tith.Store.Types.{Text, InboundState, StoreError, invalid_payload, stuck}
use tith.Store.Bytes.{put_u64, put_string}
use tith.Store.Events.{decimal}
use tith.Store.Table.{Tables}
use tith.Store.Inbound.{ItemKind, InboundRecord}
use tith.Store.Inbound.Codec.{encode_record}
use tith.Store.Inbound.Operations.{InboundDb}
use tith.Store.Inbound.Resolved.{get-insert}

unfoldable pub int_text : ℤ → Text
int_text (pos n) = decimal n
int_text (negsuc n) = 45 ∷ decimal (n + 1)

-- `Address::to_string`: a number that has its default is left out.
unfoldable pub address_text : Address → Text
unfolding int_text
address_text self =
    let plain : ℤ = if self.zone =? minus_one then minus_one else pos 0 in
    self.domain
    ++ 35 ∷ int_text self.zone
    ++ (if self.net =? self.zone then [] else 58 ∷ int_text self.net)
    ++ (if self.node =? plain then [] else 47 ∷ int_text self.node)
    ++ (if self.point == 0 then [] else 46 ∷ decimal self.point)

unfoldable pub signed_kind_code : SignedItemKind → ℕ
signed_kind_code SignedItemKind.message = Types.message
signed_kind_code SignedItemKind.file = Types.file

unfoldable pub encode_duplicate_identity : SignedItemIdentity → List ℕ
unfolding signed_kind_code address_text
encode_duplicate_identity value =
    put_u64 (signed_kind_code value.kind)
    ++ (put_string (address_text value.signer.address)
        ++ (value.signer.public_key ++ value.signature))

pub record NewInbound : Type 0 where
  pub application : Text
  pub local_identity : Text
  pub peer : Text
  pub peer_key : PublicKey
  pub received : ℕ
  pub authentication : ItemAuthentication
  pub payload : List ℕ

pub data AcceptResult : Type 0 where
  stored : InboundRecord → AcceptResult
  duplicate : Text → AcceptResult

-- The kind of the only item of a payload.
unfoldable pub kind_of : List OwnedTlv → Result StoreError ItemKind
kind_of (item ∷ []) =
    if item.type_code == Types.message
    then ok ItemKind.message
    else if item.type_code == Types.file
    then ok ItemKind.file
    else if item.type_code == Types.file_request
    then ok ItemKind.file_request
    else err invalid_payload
kind_of _ = err invalid_payload

-- A file request, and nothing else, is authenticated by the transport.
unfoldable pub is_carried : ItemKind → ItemAuthentication → Bool
is_carried ItemKind.file_request ItemAuthentication.transport = true
is_carried ItemKind.file_request _ = false
is_carried _ ItemAuthentication.transport = false
is_carried _ _ = true

abbrev is_valid : ItemAuthentication → Bool
is_valid ItemAuthentication.origin_valid = true
is_valid ItemAuthentication.signed_origin_valid = true
is_valid _ = false

abbrev same_kind : SignedItemKind → ItemKind → Bool
same_kind SignedItemKind.message ItemKind.message = true
same_kind SignedItemKind.file ItemKind.file = true
same_kind _ _ = false

-- Whether an item may have the identity that it is to be known by.
unfoldable pub may_identify : Option SignedItemIdentity → ItemKind → ItemAuthentication → Bool
may_identify none kind authentication = true
may_identify (some identity) kind authentication =
    same_kind identity.kind kind && is_valid authentication

unfoldable pub checked_kind : NewInbound → Option SignedItemIdentity → Result StoreError ItemKind
unfolding kind_of is_carried may_identify
checked_kind value identity = elim (parse_sequence value.payload) [
  | ok parsed ↦ kind_of parsed >>= λ kind.
      ensure (is_carried kind value.authentication) invalid_payload
      >> (ensure (may_identify identity kind value.authentication) invalid_payload >> ok kind)
  | err _ ↦ err invalid_payload
]

unfoldable pub new_record : Text → ItemKind → TlvHash → NewInbound → InboundRecord
new_record id kind hash value = record {
  inbound_id = id;
  application = value.application;
  local_identity = value.local_identity;
  peer = value.peer;
  peer_key = value.peer_key;
  received = value.received;
  changed = value.received;
  kind = kind;
  authentication = value.authentication;
  payload_size = length value.payload;
  payload_hash = hash;
  state = InboundState.available;
  attempts = 0;
  eligible_at = value.received;
  claim_key = none;
  claim_token = none;
  claim_expires = none;
  last_result = none;
  forward_job = none;
}

abbrev id_of : AcceptResult → Text
id_of (stored record_of) = record_of.inbound_id
id_of (duplicate id) = id

duplicate-ne-stored : {id : Text} {record_of : InboundRecord} → duplicate id ≢ stored record_of
duplicate-ne-stored e = cc

module _ {T : Type 0} ⦃tables : Tables T⦄ where
  -- The first of the candidates that no record has, on fuel: the code draws until there is one.
  unfoldable pub allocate : ℕ → (ℕ → Text) → T → Result StoreError Text
  allocate zero candidates records = err stuck
  allocate (suc fuel) candidates records =
      let later = allocate fuel (λ n. candidates (suc n)) records in
      elim (tables.get (candidates 0) records) [ none ↦ ok (candidates 0) | some _ ↦ later ]

  unfoldable pub known : Option SignedItemIdentity → T → Option (List ℕ)
  known none duplicates = none
  known (some identity) duplicates = tables.get (encode_duplicate_identity identity) duplicates

  unfoldable pub remember : Option SignedItemIdentity → Text → T → T
  remember none id duplicates = duplicates
  remember (some identity) id duplicates =
      tables.insert (encode_duplicate_identity identity) id duplicates

  unfoldable pub store_new :
      ℕ
      → (ℕ → Text)
      → NewInbound
      → Option SignedItemIdentity
      → ItemKind
      → TlvHash
      → Option (List ℕ)
      → InboundDb T
      → Result StoreError (AcceptResult × InboundDb T)
  unfolding allocate remember new_record
  store_new fuel candidates value identity kind hash (some existing) db =
      ok (duplicate existing, db)
  store_new fuel candidates value identity kind hash none db =
      allocate fuel candidates db.records >>= λ id. ok (
        stored (new_record id kind hash value),
        record db {
          records = tables.insert id (encode_record (new_record id kind hash value)) db.records;
          payloads = tables.insert id value.payload db.payloads;
          duplicates = remember identity id db.duplicates;
        },
      )

  unfoldable pub accept :
      (List ℕ → Result StoreError TlvHash)
      → ℕ
      → (ℕ → Text)
      → NewInbound
      → Option SignedItemIdentity
      → InboundDb T
      → Result StoreError (AcceptResult × InboundDb T)
  unfolding checked_kind known store_new
  accept hash_inbound_item fuel candidates value identity db =
      checked_kind value identity >>= λ kind. hash_inbound_item value.payload >>= λ hash.
      store_new fuel candidates value identity kind hash (known identity db.duplicates) db

  -- The store of a new item remembers its identity.
  store_new-known :
      (fuel : ℕ) (candidates : ℕ → Text) (value : NewInbound) (identity : SignedItemIdentity)
      (kind : ItemKind) (hash : TlvHash) (existing : Option (List ℕ)) (db db' : InboundDb T)
      (record_of : InboundRecord)
      → store_new fuel candidates value (some identity) kind hash existing db
        ≡ ok (stored record_of, db')
      → tables.get (encode_duplicate_identity identity) db'.duplicates ≡ some record_of.inbound_id
  unfolding store_new remember new_record
  store_new-known fuel candidates value identity kind hash (some existing) db db' record_of h =
      absurd (duplicate-ne-stored (ap (λ r. r.0) (ok-injective h)))
  store_new-known fuel candidates value identity kind hash none db db' record_of h =
      let (id, free, made) = >>=-eq-ok (allocate fuel candidates db.records) _ h in
      let same = ok-injective made in
      let key = encode_duplicate_identity identity in
      ap (tables.get key) (sym (ap (λ r. r.1.duplicates) same))
      ∙ get-insert key id db.duplicates
      ∙ ap (λ r. some (id_of r.0)) same

  -- An item that is stored under an identity is not stored again: a second copy is a duplicate of
  -- the record that the first one made, and changes nothing.
  pub accept-accept :
      (hash_inbound_item : List ℕ → Result StoreError TlvHash) (fuel fuel' : ℕ)
      (candidates candidates' : ℕ → Text) (value : NewInbound) (identity : SignedItemIdentity)
      (db db' : InboundDb T) (record_of : InboundRecord)
      → accept hash_inbound_item fuel candidates value (some identity) db
        ≡ ok (stored record_of, db')
      → accept hash_inbound_item fuel' candidates' value (some identity) db'
        ≡ ok (duplicate record_of.inbound_id, db')
  unfolding accept
  accept-accept hash_inbound_item fuel fuel' candidates candidates' value identity db db' record_of
        h =
      let (kind, checked, rest) = >>=-eq-ok (checked_kind value (some identity)) _ h in
      let (hash, hashed, made) = >>=-eq-ok (hash_inbound_item value.payload) _ rest in
      let there =
        store_new-known fuel candidates value identity kind hash
          (known (some identity) db.duplicates) db db' record_of made in
      rw (accept, checked, hashed, known, there, store_new)
