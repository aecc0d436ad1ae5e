-- ===== src/Store/Inbound/ClaimSteps.antt =====
-- Claims of crates/tith-store/src/lib.rs: the record that a claim takes, and when a claim is lost.
use tith.Base.{
  ℕ, ◌+◌, ◌^◌, ◌<◌, ◌≡◌, refl, ap, arith, ◌∙◌, subst, true, false, Bool-cases, not, ltb, ◌&&◌, ◌||◌,
  or-false, ◌=?◌, nat_eq, list_eq, option_eq, list_beq_iff, [], ◌∷◌, All, Option, some, ok,
  ok_or-bind, ensure-bind, ok-injective, inl, inr,
}
use tith.Wire.Integer.{IsU64}
use tith.Store.Types.{Text, InboundState, corrupt_record}
use tith.Store.Bytes.Reading.{IsText, IsOptional}
use tith.Store.Table.{Entries, encoded}
use tith.Store.Inbound.{InboundRecord, Claim}
use tith.Store.Inbound.Codec.{inbound_state_code, encode_record}
use tith.Store.Inbound.Reading.{IsStorableRecord, decode-encode_record}
use tith.Store.Inbound.Steps.{
  is_claimed, is_expired, is_lost, may_claim, first_record, select_record, claim_record, claim_from,
}

pub select_record-IsStorable :
    (application : Text) (now : ℕ) (entries : Entries InboundRecord)
    (selected result : Option InboundRecord)
    → All (λ e. IsStorableRecord e.1) entries
    → IsOptional IsStorableRecord selected
    → select_record application now (encoded encode_record entries) selected ≡ ok result
    → IsOptional IsStorableRecord result
unfolding select_record
select_record-IsStorable application now [] selected result storable h e =
    subst (IsOptional IsStorableRecord) (ok-injective e) h
select_record-IsStorable application now ((key, record_of) ∷ entries) selected result storable h e =
    let read = rw (decode-encode_record record_of storable.0) at e in
    elim (Bool-cases (may_claim application now record_of && first_record record_of selected)) [
      | inl better ↦
          select_record-IsStorable application now entries (some record_of) result storable.1
            storable.0 (rw better at read)
      | inr worse ↦
          select_record-IsStorable application now entries selected result storable.1 h
            (rw worse at read)
    ]

-- The record of a new claim.
pub record IsClaim (now duration : ℕ) (token : Text) (record_of : InboundRecord) : Type 0 where
  pub storable : IsStorableRecord record_of
  pub state : record_of.state ≡ InboundState.claimed
  pub held : record_of.claim_token ≡ some token
  pub expires : record_of.claim_expires ≡ some (now + duration)

pub claim_record-IsClaim :
    (now duration : ℕ) (claim_key token : Text) (selected record_of : InboundRecord)
    → IsU64 now
    → IsText claim_key
    → IsText token
    → IsStorableRecord selected
    → claim_record now duration claim_key token selected ≡ ok record_of
    → IsClaim now duration token record_of
unfolding claim_record
claim_record-IsClaim now duration claim_key token selected record_of time keyed text h e =
    let (in_time, rest) = ensure-bind (ltb (now + duration) (2 ^ 64)) corrupt_record _ e in
    let (counted, made) =
      ensure-bind (ltb (selected.attempts + 1) (2 ^ 64)) corrupt_record _ rest in
    subst (IsClaim now duration token) (ok-injective made) (record {
      storable = record {
        inbound_id = h.inbound_id;
        application = h.application;
        local_identity = h.local_identity;
        peer = h.peer;
        peer_key = h.peer_key;
        received = h.received;
        changed = time;
        payload_size = h.payload_size;
        attempts = ground arith;
        eligible_at = h.eligible_at;
        payload_hash = h.payload_hash;
        claim_key = keyed;
        claim_token = text;
        last_result = h.last_result;
        claim_expires = ground arith;
        forward_job = h.forward_job;
      };
      state = refl;
      held = refl;
      expires = refl;
    })

pub claim_from-eq-ok :
    (record_of : InboundRecord) (claim : Claim)
    → claim_from record_of ≡ ok claim
    → record_of.claim_expires ≡ some claim.expires
unfolding claim_from
claim_from-eq-ok record_of claim e =
    let (token, held, rest) = ok_or-bind corrupt_record record_of.claim_token _ e in
    let (expires, until, made) = ok_or-bind corrupt_record record_of.claim_expires _ rest in
    until ∙ ap (λ c. some c.expires) (ok-injective made)

-- A claim that holds at one time holds at every time before it runs out.
pub is_lost-before :
    (record_of : InboundRecord) (token : Text) (now now' expires : ℕ)
    → is_lost record_of token now ≡ false
    → record_of.claim_expires ≡ some expires
    → now' < expires
    → is_lost record_of token now' ≡ false
unfolding is_lost
is_lost-before record_of token now now' expires h until before =
    let (live, past) =
      or-false (not (is_claimed record_of.state) || not (record_of.claim_token =? some token))
        (is_expired now record_of.claim_expires) h in
    let running : is_expired now' (some expires) ≡ false = ground arith in rw (live, until, running)

pub is_lost-claimed :
    (record_of : InboundRecord) (now now' duration : ℕ) (token : Text)
    → IsClaim now duration token record_of
    → now' < now + duration
    → is_lost record_of token now' ≡ false
unfolding is_lost inbound_state_code
is_lost-claimed record_of now now' duration token h before =
    let same : (token =? token) ≡ true = (list_beq_iff token token).1 refl in
    let running : is_expired now' (some (now + duration)) ≡ false = ground arith in
    rw (h.state, h.held, h.expires, same, running)
