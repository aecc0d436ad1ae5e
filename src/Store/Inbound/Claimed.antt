-- ===== src/Store/Inbound/Claimed.antt =====
-- crates/tith-store/src/lib.rs: a claim that is asked for again is given again, as its answer may be
-- lost.
use tith.Base.{
  ℕ, ◌+◌, ◌<◌, ◌≡◌, ◌≢◌, sym, ap, ◌∙◌, subst, Bool-cases, nat_eq, list_eq, option_eq, All, Option,
  Option-cases, none, some, ok, ok_or, ◌>>=◌, >>=-eq-ok, ok-injective, inl, inr,
}
use tith.Base.Options.{some-injective}
use tith.Wire.Integer.{IsU64}
use tith.Store.Types.{Text, InboundState, corrupt_record}
use tith.Store.Bytes.Reading.{IsText, IsOptional}
use tith.Store.Table.{Entries, encoded, Tables}
use tith.Store.Inbound.{InboundRecord, Claim, ClaimResult, completed, resolved, empty}
use tith.Store.Inbound.Codec.{
  encode_record, decode_record, claim_mapping_key, Mapping, encode_mapping, decode_mapping,
}
use tith.Store.Inbound.Reading.{IsStorableRecord, decode-encode_record, decode-encode_mapping}
use tith.Store.Inbound.Resolved.{get-insert}
use tith.Store.Inbound.Operations.{InboundDb, claim_mapped, claim_new, claim_keyed, claim_refreshed}
use tith.Store.Inbound.Steps.{is_lost, select_record, claim_record, claim_from}
use tith.Store.Inbound.ClaimSteps.{
  select_record-IsStorable, claim_record-IsClaim, claim_from-eq-ok, is_lost-before, is_lost-claimed,
}

abbrev expires_of : ClaimResult → ℕ
expires_of (completed claim) = claim.expires
expires_of _ = 0

resolved-ne-completed :
    {id : Text} {state : InboundState} {claim : Claim} → resolved id state ≢ completed claim
resolved-ne-completed e = cc

empty-ne-completed : {claim : Claim} → empty ≢ completed claim
empty-ne-completed e = cc

module _ {T : Type 0} ⦃tables : Tables T⦄ where
  -- A key that has been used answers with the claim while it holds.
  claim_mapped-again :
      (now now' : ℕ) (mapping : Mapping) (db db' : InboundDb T) (claim : Claim)
      → claim_mapped now mapping db ≡ ok (completed claim, db')
      → now' < claim.expires
      → (db ≡ db') × (claim_mapped now' mapping db ≡ ok (completed claim, db'))
  unfolding claim_mapped
  claim_mapped-again now now' (id, token, some known) db db' claim h before =
      let (record_of, read, answer) =
        >>=-eq-ok (ok_or corrupt_record (tables.get id db.records) >>= decode_record) _ h in
      absurd (resolved-ne-completed (ap (λ r. r.0) (ok-injective answer)))
  claim_mapped-again now now' (id, token, none) db db' claim h before =
      let (record_of, read, answer) =
        >>=-eq-ok (ok_or corrupt_record (tables.get id db.records) >>= decode_record) _ h in
      elim (Bool-cases (is_lost record_of token now)) [
        | inl lost ↦
            absurd (resolved-ne-completed (ap (λ r. r.0) (ok-injective (rw lost at answer))))
        | inr holds ↦
            let (claim', from, last) = >>=-eq-ok (claim_from record_of) _ (rw holds at answer) in
            let same = ok-injective last in
            let before' : now' < claim'.expires =
              subst (λ n. now' < n) (sym (ap (λ r. expires_of r.0) same)) before in
            let later =
              is_lost-before record_of token now now' claim'.expires holds
                (claim_from-eq-ok record_of claim' from) before' in
            (ap (λ r. r.1) same, rw (read, later, from) (ap ok same))
      ]

  claim_new-again :
      (application claim_key : Text) (now now' duration duration' : ℕ) (token token' : Text)
      (selected : InboundRecord) (db db' : InboundDb T) (claim : Claim)
      → IsU64 now
      → IsText claim_key
      → IsText token
      → IsStorableRecord selected
      → claim_new application claim_key now duration token (some selected) db
        ≡ ok (completed claim, db')
      → now' < claim.expires
      → claim_refreshed application claim_key now' duration' token' db' ≡ ok (completed claim, db')
  unfolding claim_new claim_refreshed
  claim_new-again application claim_key now now' duration duration' token token' selected db db'
        claim time keyed text storable h before =
      let (record_of, made, rest) =
        >>=-eq-ok (claim_record now duration claim_key token selected) _ h in
      let (claim', from, last) = >>=-eq-ok (claim_from record_of) _ rest in
      let same = ok-injective last in
      let fine =
        claim_record-IsClaim now duration claim_key token selected record_of time keyed text
          storable made in
      let until : claim'.expires ≡ now + duration =
        some-injective (sym (claim_from-eq-ok record_of claim' from) ∙ fine.expires) in
      let before' : now' < now + duration =
        subst (λ n. now' < n) (sym (ap (λ r. expires_of r.0) same) ∙ until) before in
      subst (λ r. claim_refreshed application claim_key now' duration' token' r.1 ≡ ok r) same
        (rw (
          claim_refreshed,
          claim_keyed,
          get-insert (claim_mapping_key application claim_key)
              (encode_mapping (record_of.inbound_id, token, none)) db.claim_keys,
          decode-encode_mapping (record_of.inbound_id, token, none) fine.storable.inbound_id text,
          claim_mapped,
          get-insert record_of.inbound_id (encode_record record_of) db.records,
          decode-encode_record record_of fine.storable,
          is_lost-claimed record_of now now' duration token fine before',
          from,
        ))

  claim_any-again :
      (application claim_key : Text) (now now' duration duration' : ℕ) (token token' : Text)
      (selected : Option InboundRecord) (db db' : InboundDb T) (claim : Claim)
      → IsU64 now
      → IsText claim_key
      → IsText token
      → IsOptional IsStorableRecord selected
      → claim_new application claim_key now duration token selected db ≡ ok (completed claim, db')
      → now' < claim.expires
      → claim_refreshed application claim_key now' duration' token' db' ≡ ok (completed claim, db')
  unfolding claim_new
  claim_any-again application claim_key now now' duration duration' token token' none db db' claim
        time keyed text storable h before =
      absurd (empty-ne-completed (ap (λ r. r.0) (ok-injective h)))
  claim_any-again application claim_key now now' duration duration' token token' (some selected) db
        db' claim time keyed text storable h before =
      claim_new-again application claim_key now now' duration duration' token token' selected db db'
        claim time keyed text storable h before

  -- A claim that the second transaction of `claim` gives for a key is given again for that key,
  -- with the same database, while it holds.
  pub claim_refreshed-claim_refreshed :
      (application claim_key : Text) (now now' duration duration' : ℕ) (token token' : Text)
      (db db' : InboundDb T) (claim : Claim) (entries : Entries InboundRecord)
      → tables.iter db.records ≡ encoded encode_record entries
      → All (λ e. IsStorableRecord e.1) entries
      → IsU64 now
      → IsText claim_key
      → IsText token
      → claim_refreshed application claim_key now duration token db ≡ ok (completed claim, db')
      → now' < claim.expires
      → claim_refreshed application claim_key now' duration' token' db' ≡ ok (completed claim, db')
  unfolding claim_refreshed claim_keyed
  claim_refreshed-claim_refreshed application claim_key now now' duration duration' token token' db
        db' claim entries table kept time keyed text h before =
      let mapping_key = claim_mapping_key application claim_key in
      elim (Option-cases (tables.get mapping_key db.claim_keys)) [
        | inr (mapped, e) ↦
            let found = rw (claim_refreshed, claim_keyed, e) at h in
            let (mapping, read, answer) = >>=-eq-ok (decode_mapping mapped) _ found in
            let (same, again) = claim_mapped-again now now' mapping db db' claim answer before in
            subst
              (λ d.
                claim_refreshed application claim_key now' duration' token' d
                ≡ ok (completed claim, db'))
              same (rw (claim_refreshed, claim_keyed, e, read) again)
        | inl e ↦
            let new = rw (claim_refreshed, claim_keyed, e, table) at h in
            let (selected, walked, made) =
              >>=-eq-ok (select_record application now (encoded encode_record entries) none) _
                new in
            claim_any-again application claim_key now now' duration duration' token token' selected
              db db' claim time keyed text
              (select_record-IsStorable application now entries none selected kept tt walked) made
              before
      ]
