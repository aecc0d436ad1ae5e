-- ===== src/Store/Inbound/Operations.antt =====
-- crates/tith-store/src/lib.rs: the operations of `InboundStore` on the inbound tables. What the random
-- source of the system gives, the token of a claim, is an argument.
use tith.Base.{
  ℕ, ◌+◌, ◌^◌, true, false, not, ltb, ◌==◌, ◌&&◌, ◌=?◌, nat_eq, list_eq, option_eq, if◌then◌else◌,
  List, [], ◌∷◌, length, Option, none, some, Result, ok, err, ok_or, ensure, ◌>>=◌, ◌>>◌,
}
use tith.Store.Types.{Text, InboundState, StoreError, corrupt_record, not_found, stale}
use tith.Store.Table.{Tables}
use tith.Store.Inbound.{InboundRecord, ClaimResult, completed, empty, resolved, Resolution}
use tith.Store.Inbound.Codec.{
  inbound_state_code, encode_record, decode_record, claim_mapping_key, Mapping, encode_mapping,
  decode_mapping, TokenResolution, encode_token_resolution, decode_token_resolution,
}
use tith.Store.Inbound.Steps.{
  is_claimed, is_lost, outcome_of, resolve_record, Freed, expired, free_all, select_record,
  claim_record, claim_from,
}

-- The tables RECORDS, PAYLOADS, CLAIM_KEYS, RESOLVED_TOKENS and DUPLICATES.
pub record InboundDb (T : Type 0) : Type 0 where
  pub records : T
  pub payloads : T
  pub claim_keys : T
  pub resolved_tokens : T
  pub duplicates : T

module _ {T : Type 0} ⦃tables : Tables T⦄ where
  unfoldable pub query_record : Text → InboundDb T → Result StoreError InboundRecord
  query_record inbound_id db = ok_or not_found (tables.get inbound_id db.records) >>= decode_record

  unfoldable pub query_record_for : Text → Text → InboundDb T → Result StoreError InboundRecord
  unfolding query_record
  query_record_for application inbound_id db = query_record inbound_id db >>= λ record_of.
      if record_of.application =? application then ok record_of else err not_found

  -- What `renew` and `claimed_payload` begin with.
  unfoldable pub holder_record :
      Text → Text → Text → ℕ → InboundDb T → Result StoreError InboundRecord
  unfolding query_record is_lost
  holder_record application inbound_id token now db = query_record inbound_id db >>= λ record_of.
      ensure (record_of.application =? application) not_found
      >> (if is_lost record_of token now then err (stale record_of.state) else ok record_of)

  unfoldable pub claimed_payload : Text → Text → Text → ℕ → InboundDb T → Result StoreError (List ℕ)
  unfolding holder_record
  claimed_payload application inbound_id token now db =
      holder_record application inbound_id token now db >>= λ record_of.
      ok_or not_found (tables.get inbound_id db.payloads)

  unfoldable pub renew :
      Text → Text → Text → ℕ → ℕ → InboundDb T → Result StoreError (ℕ × InboundDb T)
  unfolding holder_record
  renew application inbound_id token now duration db =
      holder_record application inbound_id token now db >>= λ record_of.
      ensure (ltb (now + duration) (2 ^ 64)) corrupt_record
      >> ok (
        now + duration,
        record db {
          records =
              tables.insert inbound_id
                (encode_record (record record_of { claim_expires = some (now + duration) }))
                db.records;
        },
      )

  -- A token that is resolved already.
  unfoldable pub resolve_again :
      Text → Text → TokenResolution → InboundDb T → Result StoreError (InboundState × InboundDb T)
  unfolding query_record
  resolve_again application inbound_id (resolved_id, state, by_holder) db =
      query_record resolved_id db >>= λ record_of.
      ensure (record_of.application =? application) not_found
      >> (if resolved_id =? inbound_id && by_holder then ok (state, db) else err (stale state))

  -- The three tables that a resolution writes.
  unfoldable pub store_resolution : Text → Text → Text → InboundRecord → InboundDb T → InboundDb T
  store_resolution inbound_id token claim_key record_of db = record db {
    records = tables.insert inbound_id (encode_record record_of) db.records;
    claim_keys =
        tables.insert (claim_mapping_key record_of.application claim_key)
          (encode_mapping (inbound_id, token, some record_of.state)) db.claim_keys;
    resolved_tokens =
        tables.insert token (encode_token_resolution (inbound_id, record_of.state, true))
          db.resolved_tokens;
  }

  unfoldable pub resolve_claimed :
      Text
      → Text
      → Text
      → ℕ
      → Resolution
      → InboundDb T
      → Result StoreError (InboundState × InboundDb T)
  unfolding query_record outcome_of store_resolution inbound_state_code
  resolve_claimed application inbound_id token now resolution db =
      query_record inbound_id db >>= λ record_of.
      ensure (record_of.application =? application) not_found
      >> (if not (is_claimed record_of.state)
          then (if record_of.claim_token =? some token
              then ok (record_of.state, db)
              else err (stale record_of.state))
          else if is_lost record_of token now
          then err (stale record_of.state)
          else (ok_or corrupt_record record_of.claim_key >>= λ claim_key.
              let after = resolve_record now (outcome_of resolution now record_of) record_of in
              ok (after.state, store_resolution inbound_id token claim_key after db)))

  unfoldable pub resolve_token :
      Text
      → Text
      → Text
      → ℕ
      → Resolution
      → Option (List ℕ)
      → InboundDb T
      → Result StoreError (InboundState × InboundDb T)
  unfolding resolve_again resolve_claimed
  resolve_token application inbound_id token now resolution (some value) db =
      decode_token_resolution value >>= λ known. resolve_again application inbound_id known db
  resolve_token application inbound_id token now resolution none db =
      resolve_claimed application inbound_id token now resolution db

  unfoldable pub resolve :
      Text
      → Text
      → Text
      → ℕ
      → Resolution
      → InboundDb T
      → Result StoreError (InboundState × InboundDb T)
  unfolding resolve_token
  resolve application inbound_id token now resolution db =
      resolve_token application inbound_id token now resolution
        (tables.get token db.resolved_tokens) db

  -- The inserts of `refresh_expirations`.
  unfoldable pub store_freed : List Freed → InboundDb T → InboundDb T
  store_freed [] db = db
  store_freed ((record_of, mapping_key, token) ∷ freed) db = store_freed freed (record db {
    records = tables.insert record_of.inbound_id (encode_record record_of) db.records;
    claim_keys =
        tables.insert mapping_key
          (encode_mapping (record_of.inbound_id, token, some InboundState.available)) db.claim_keys;
    resolved_tokens =
        tables.insert token
          (encode_token_resolution (record_of.inbound_id, InboundState.available, false))
          db.resolved_tokens;
  })

  unfoldable pub refresh_expirations : ℕ → InboundDb T → Result StoreError (InboundDb T)
  unfolding expired free_all store_freed
  refresh_expirations now db = expired now (tables.iter db.records) >>= λ records.
      free_all records >>= λ freed. ok (store_freed freed db)

  -- A key that has been used.
  unfoldable pub claim_mapped :
      ℕ → Mapping → InboundDb T → Result StoreError (ClaimResult × InboundDb T)
  claim_mapped now (id, token, state) db =
      ok_or corrupt_record (tables.get id db.records) >>= decode_record >>= λ record_of.
      elim state [
        | some known ↦ ok (resolved id known, db)
        | none ↦
            if is_lost record_of token now
            then ok (resolved id record_of.state, db)
            else (claim_from record_of >>= λ claim. ok (completed claim, db))
      ]

  unfoldable pub claim_new :
      Text
      → Text
      → ℕ
      → ℕ
      → Text
      → Option InboundRecord
      → InboundDb T
      → Result StoreError (ClaimResult × InboundDb T)
  claim_new application claim_key now duration token none db = ok (empty, db)
  claim_new application claim_key now duration token (some selected) db =
      claim_record now duration claim_key token selected >>= λ record_of.
      claim_from record_of >>= λ claim. ok (
        completed claim,
        record db {
          records = tables.insert record_of.inbound_id (encode_record record_of) db.records;
          claim_keys =
              tables.insert (claim_mapping_key application claim_key)
                (encode_mapping (record_of.inbound_id, token, none)) db.claim_keys;
        },
      )

  unfoldable pub claim_keyed :
      Text
      → Text
      → ℕ
      → ℕ
      → Text
      → Option (List ℕ)
      → InboundDb T
      → Result StoreError (ClaimResult × InboundDb T)
  unfolding claim_mapped claim_new
  claim_keyed application claim_key now duration token (some mapped) db =
      decode_mapping mapped >>= λ mapping. claim_mapped now mapping db
  claim_keyed application claim_key now duration token none db =
      select_record application now (tables.iter db.records) none >>= λ selected.
      claim_new application claim_key now duration token selected db

  -- The second transaction of `claim`.
  unfoldable pub claim_refreshed :
      Text → Text → ℕ → ℕ → Text → InboundDb T → Result StoreError (ClaimResult × InboundDb T)
  unfolding claim_keyed
  claim_refreshed application claim_key now duration token db =
      claim_keyed application claim_key now duration token
        (tables.get (claim_mapping_key application claim_key) db.claim_keys) db

  abbrev pub committed :
      {A : Type 0}
      → InboundDb T
      → Result StoreError (A × InboundDb T)
      → Result StoreError A × InboundDb T
  committed db (ok (answer, db')) = (ok answer, db')
  committed db (err e) = (err e, db)

  -- `claim` is two transactions: where the second fails, the first stands.
  unfoldable pub claim :
      Text → Text → ℕ → ℕ → Text → InboundDb T → Result StoreError ClaimResult × InboundDb T
  unfolding refresh_expirations claim_refreshed
  claim application claim_key now duration token db =
      if length claim_key == 0
      then (err corrupt_record, db)
      else elim (refresh_expirations now db) [
        | ok fresh ↦
            committed fresh (claim_refreshed application claim_key now duration token fresh)
        | err e ↦ (err e, db)
      ]
