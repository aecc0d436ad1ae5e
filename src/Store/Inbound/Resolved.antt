-- ===== src/Store/Inbound/Resolved.antt =====
-- crates/tith-store/src/lib.rs: `resolve` is idempotent, as its answer may be lost.
use tith.Base.{
  ℕ, ◌≡◌, refl, ap, arith, ◌∙◌, subst, true, Bool-cases, not, ◌&&◌, ◌=?◌, nat_eq, list_eq,
  option_eq, list_beq_iff, List, Option-cases, none, some, ok, ok_or-bind, ensure-bind, >>=-eq-ok,
  ok-injective, inl, inr,
}
use tith.Wire.Integer.{IsU64}
use tith.Wire.Cursor.{is_utf8}
use tith.Store.Types.{Text, InboundState, not_found, corrupt_record}
use tith.Store.Bytes.Reading.{IsText}
use tith.Store.Table.{find, Tables}
use tith.Store.Table.Entries.{find-put}
use tith.Store.Inbound.{InboundRecord, Resolution}
use tith.Store.Inbound.Codec.{
  encode_record, TokenResolution, encode_token_resolution, decode_token_resolution,
}
use tith.Store.Inbound.Reading.{
  IsStorableRecord, decode-encode_record, decode-encode_token_resolution,
}
use tith.Store.Inbound.Operations.{
  InboundDb, query_record, resolve_again, store_resolution, resolve_claimed, resolve_token, resolve,
}
use tith.Store.Inbound.Steps.{is_claimed, is_lost, outcome_of, resolve_record}

-- What a holder reports can be stored.
abbrev pub IsStorableResolution : Resolution → Type 0
IsStorableResolution Resolution.acknowledge = Unit
IsStorableResolution Resolution.release = Unit
IsStorableResolution (Resolution.defer retry_after description) =
    IsU64 retry_after × IsText description
IsStorableResolution (Resolution.reject description) = IsText description

outcome_of-storable :
    (resolution : Resolution) (now : ℕ) (record_of : InboundRecord)
    → IsStorableResolution resolution
    → IsU64 now
    → IsStorableRecord record_of
    → IsU64 (outcome_of resolution now record_of).1 × IsText (outcome_of resolution now record_of).2
unfolding outcome_of is_utf8
outcome_of-storable Resolution.acknowledge now record_of fine time h =
    (h.eligible_at, (refl, omega arith))
outcome_of-storable Resolution.release now record_of fine time h = (time, (refl, omega arith))
outcome_of-storable (Resolution.defer retry_after description) now record_of fine time h = fine
outcome_of-storable (Resolution.reject description) now record_of fine time h =
    (h.eligible_at, fine)

resolve_record-IsStorable :
    (resolution : Resolution) (now : ℕ) (record_of : InboundRecord)
    → IsStorableResolution resolution
    → IsU64 now
    → IsStorableRecord record_of
    → IsStorableRecord (resolve_record now (outcome_of resolution now record_of) record_of)
resolve_record-IsStorable resolution now record_of fine time h =
    let (eligible, text) = outcome_of-storable resolution now record_of fine time h in
    record {
      inbound_id = h.inbound_id;
      application = h.application;
      local_identity = h.local_identity;
      peer = h.peer;
      peer_key = h.peer_key;
      received = h.received;
      changed = time;
      payload_size = h.payload_size;
      attempts = h.attempts;
      eligible_at = eligible;
      payload_hash = h.payload_hash;
      claim_key = h.claim_key;
      claim_token = h.claim_token;
      last_result = text;
      claim_expires = tt;
      forward_job = h.forward_job;
    }

module _ {T : Type 0} ⦃tables : Tables T⦄ where
  pub get-insert :
      (key value : List ℕ) (table : T) → tables.get key (tables.insert key value table) ≡ some value
  get-insert key value table =
      let same : (key =? key) ≡ true = (list_beq_iff key key).1 refl in
      tables.get-iter key _
      ∙ ap (find key) (tables.iter-insert key value table)
      ∙ find-put key value (tables.iter table) key
      ∙ rw same

  -- A token that is resolved already answers and leaves the database as it is.
  resolve_again-same :
      (application inbound_id : Text) (known : TokenResolution) (db db' : InboundDb T)
      (state : InboundState)
      → resolve_again application inbound_id known db ≡ ok (state, db')
      → db ≡ db'
  unfolding resolve_again
  resolve_again-same application inbound_id (id, known, by_holder) db db' state h =
      let (record_of, found, rest) = >>=-eq-ok (query_record id db) _ h in
      let (owner, answer) = ensure-bind (record_of.application =? application) not_found _ rest in
      elim (Bool-cases (id =? inbound_id && by_holder)) [
        | inl e ↦ ap (λ r. r.1) (ok-injective (rw e at answer))
        | inr e ↦ let wrong = rw e at answer in cc
      ]

  -- What is stored of a resolution answers the next one.
  store_resolution-again :
      (application inbound_id token claim_key : Text) (record_of : InboundRecord) (db : InboundDb T)
      (now : ℕ) (resolution : Resolution)
      → IsText inbound_id
      → IsStorableRecord record_of
      → record_of.application ≡ application
      → resolve application inbound_id token now resolution
          (store_resolution inbound_id token claim_key record_of db)
        ≡ ok (record_of.state, store_resolution inbound_id token claim_key record_of db)
  unfolding resolve store_resolution resolve_again query_record
  store_resolution-again application inbound_id token claim_key record_of db now resolution id h
        owner =
      let mine : (record_of.application =? application) ≡ true =
        (list_beq_iff record_of.application application).1 owner in
      let same : (inbound_id =? inbound_id) ≡ true = (list_beq_iff inbound_id inbound_id).1 refl in
      rw (
        resolve,
        resolve_token,
        get-insert token (encode_token_resolution (inbound_id, record_of.state, true))
            db.resolved_tokens,
        decode-encode_token_resolution (inbound_id, record_of.state, true) id,
        get-insert inbound_id (encode_record record_of) db.records,
        decode-encode_record record_of h,
        mine,
        same,
      )

  -- The first resolution of a token.
  resolve_claimed-resolve :
      (application inbound_id token : Text) (now now' : ℕ) (resolution resolution' : Resolution)
      (db db' : InboundDb T) (record_of : InboundRecord) (state : InboundState)
      → tables.get token db.resolved_tokens ≡ none
      → query_record inbound_id db ≡ ok record_of
      → IsStorableRecord record_of
      → IsText inbound_id
      → IsU64 now
      → IsStorableResolution resolution
      → resolve_claimed application inbound_id token now resolution db ≡ ok (state, db')
      → resolve application inbound_id token now' resolution' db' ≡ ok (state, db')
  unfolding resolve_claimed resolve
  resolve_claimed-resolve application inbound_id token now now' resolution resolution' db db'
        record_of state unknown there storable id time fine h =
      let (owner, answer) =
        ensure-bind (record_of.application =? application) not_found _
          (rw (there, resolve_claimed) at h) in
      elim (Bool-cases (not (is_claimed record_of.state))) [
        | inl over ↦ elim (Bool-cases (record_of.claim_token =? some token)) [
          | inl mine ↦
              subst (λ r. resolve application inbound_id token now' resolution' r.1 ≡ ok r)
                (ok-injective (rw (over, mine) at answer))
                (rw (resolve, resolve_token, unknown, resolve_claimed, there, owner, over, mine))
          | inr other ↦ let wrong = rw (over, other) at answer in cc
        ]
        | inr live ↦ elim (Bool-cases (is_lost record_of token now)) [
          | inl lost ↦ let wrong = rw (live, lost) at answer in cc
          | inr held ↦
              let (claim_key, keyed, stored) =
                ok_or-bind corrupt_record record_of.claim_key _ (rw (live, held) at answer) in
              let after = resolve_record now (outcome_of resolution now record_of) record_of in
              subst (λ r. resolve application inbound_id token now' resolution' r.1 ≡ ok r)
                (ok-injective stored)
                (store_resolution-again application inbound_id token claim_key after db now'
                  resolution' id
                  (resolve_record-IsStorable resolution now record_of fine time storable)
                  ((list_beq_iff record_of.application application).0 owner))
        ]
      ]

  -- A resolution that has succeeded succeeds again, at any time and with any resolution, with the
  -- same state and without a change of the database.
  pub resolve-resolve :
      (application inbound_id token : Text) (now now' : ℕ) (resolution resolution' : Resolution)
      (db db' : InboundDb T) (record_of : InboundRecord) (state : InboundState)
      → query_record inbound_id db ≡ ok record_of
      → IsStorableRecord record_of
      → IsText inbound_id
      → IsU64 now
      → IsStorableResolution resolution
      → resolve application inbound_id token now resolution db ≡ ok (state, db')
      → resolve application inbound_id token now' resolution' db' ≡ ok (state, db')
  unfolding resolve
  resolve-resolve application inbound_id token now now' resolution resolution' db db' record_of
        state there storable id time fine h =
      elim (Option-cases (tables.get token db.resolved_tokens)) [
        | inl unknown ↦
            resolve_claimed-resolve application inbound_id token now now' resolution resolution' db
              db' record_of state unknown there storable id time fine
              (rw (resolve, resolve_token, unknown) at h)
        | inr (value, e) ↦
            let known_now = rw (resolve, resolve_token, e) at h in
            let (known, read, again) = >>=-eq-ok (decode_token_resolution value) _ known_now in
            let same = resolve_again-same application inbound_id known db db' state again in
            subst (λ d. resolve application inbound_id token now' resolution' d ≡ ok (state, db'))
              same (rw (resolve, resolve_token, e) known_now)
      ]
