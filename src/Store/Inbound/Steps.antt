-- ===== src/Store/Inbound/Steps.antt =====
-- crates/tith-store/src/lib.rs: what the operations of `InboundStore` do to a record, and which record a
-- claim takes.
use tith.Base.{
  ℕ, ◌+◌, ◌^◌, Bool, true, false, not, ltb, leb, ◌==◌, ◌&&◌, ◌||◌, ◌=?◌, nat_eq, list_eq, option_eq,
  if◌then◌else◌, List, [], ◌∷◌, Option, none, some, Result, ok, ok_or, ensure, ◌>>=◌, ◌>>◌,
}
use tith.Store.Types.{Text, InboundState, StoreError, corrupt_record}
use tith.Store.Table.{Entries, less}
use tith.Store.Inbound.{InboundRecord, Claim, Resolution}
use tith.Store.Inbound.Codec.{inbound_state_code, decode_record, claim_mapping_key}

abbrev pub is_claimed : InboundState → Bool
is_claimed state = inbound_state_code state == 1

abbrev pub is_expired : ℕ → Option ℕ → Bool
is_expired now none = true
is_expired now (some expires) = leb expires now

-- Whether the claim with a token does not hold at a time.
unfoldable pub is_lost : InboundRecord → Text → ℕ → Bool
unfolding inbound_state_code
is_lost record_of token now =
    not (is_claimed record_of.state)
    || not (record_of.claim_token =? some token)
    || is_expired now record_of.claim_expires

-- "Available" and "Consumed".
abbrev pub available_text : Text
available_text = 65 ∷ 118 ∷ 97 ∷ 105 ∷ 108 ∷ 97 ∷ 98 ∷ 108 ∷ 101 ∷ []

abbrev pub consumed_text : Text
consumed_text = 67 ∷ 111 ∷ 110 ∷ 115 ∷ 117 ∷ 109 ∷ 101 ∷ 100 ∷ []

-- The state that a resolution leads to, when the record is eligible again, and the result.
unfoldable pub outcome_of : Resolution → ℕ → InboundRecord → InboundState × ℕ × Text
outcome_of Resolution.acknowledge now record_of =
    (InboundState.consumed, record_of.eligible_at, consumed_text)
outcome_of Resolution.release now record_of = (InboundState.available, now, available_text)
outcome_of (Resolution.defer retry_after description) now record_of =
    (InboundState.deferred, retry_after, description)
outcome_of (Resolution.reject description) now record_of =
    (InboundState.rejected, record_of.eligible_at, description)

abbrev pub resolve_record : ℕ → InboundState × ℕ × Text → InboundRecord → InboundRecord
resolve_record now (state, eligible_at, result) record_of = record record_of {
  state = state;
  changed = now;
  eligible_at = eligible_at;
  claim_expires = none;
  last_result = some result;
}

-- A record whose claim has run out, as it becomes available, and the key of its claim and its token.
abbrev pub Freed : Type 0
Freed = InboundRecord × List ℕ × Text

unfoldable pub free : InboundRecord → Result StoreError Freed
free record_of = ok_or corrupt_record record_of.claim_expires >>= λ expired_at.
    ok_or corrupt_record record_of.claim_key >>= λ claim_key.
    ok_or corrupt_record record_of.claim_token >>= λ claim_token. ok (
      record record_of {
        state = InboundState.available;
        changed = expired_at;
        eligible_at = expired_at;
        claim_expires = none;
        last_result = some available_text;
      },
      claim_mapping_key record_of.application claim_key,
      claim_token,
    )

abbrev runs_out : ℕ → InboundRecord → Bool
runs_out now record_of =
    is_claimed record_of.state
    && elim record_of.claim_expires [ none ↦ false | some expires ↦ leb expires now ]

unfoldable pub expired : ℕ → Entries (List ℕ) → Result StoreError (List InboundRecord)
unfolding inbound_state_code
expired now [] = ok []
expired now ((key, value) ∷ entries) = decode_record value >>= λ record_of.
    expired now entries >>= λ others.
    ok (if runs_out now record_of then record_of ∷ others else others)

unfoldable pub free_all : List InboundRecord → Result StoreError (List Freed)
unfolding free
free_all [] = ok []
free_all (record_of ∷ records) =
    free record_of >>= λ freed. free_all records >>= λ others. ok (freed ∷ others)

-- `(eligible_at, received, inbound_id)` of a record that may be claimed.
abbrev pub before_record : InboundRecord → InboundRecord → Bool
before_record left right =
    ltb left.eligible_at right.eligible_at
    || left.eligible_at == right.eligible_at
      && (ltb left.received right.received
          || left.received == right.received && less left.inbound_id right.inbound_id)

abbrev pub first_record : InboundRecord → Option InboundRecord → Bool
first_record candidate none = true
first_record candidate (some selected) = before_record candidate selected

unfoldable pub may_claim : Text → ℕ → InboundRecord → Bool
unfolding inbound_state_code
may_claim application now record_of =
    record_of.application =? application
    && (inbound_state_code record_of.state == 0 || inbound_state_code record_of.state == 2)
    && leb record_of.eligible_at now

unfoldable pub select_record :
    Text → ℕ → Entries (List ℕ) → Option InboundRecord → Result StoreError (Option InboundRecord)
unfolding may_claim
select_record application now [] selected = ok selected
select_record application now ((key, value) ∷ entries) selected =
    decode_record value >>= λ record_of. select_record application now entries (
      if may_claim application now record_of && first_record record_of selected
      then some record_of
      else selected)

unfoldable pub claim_record : ℕ → ℕ → Text → Text → InboundRecord → Result StoreError InboundRecord
claim_record now duration claim_key token record_of =
    ensure (ltb (now + duration) (2 ^ 64)) corrupt_record
    >> (ensure (ltb (record_of.attempts + 1) (2 ^ 64)) corrupt_record
        >> ok (record record_of {
          state = InboundState.claimed;
          changed = now;
          attempts = record_of.attempts + 1;
          claim_key = some claim_key;
          claim_token = some token;
          claim_expires = some (now + duration);
        }))

unfoldable pub claim_from : InboundRecord → Result StoreError Claim
claim_from record_of = ok_or corrupt_record record_of.claim_token >>= λ token.
    ok_or corrupt_record record_of.claim_expires >>= λ expires. ok (record {
      inbound_id = record_of.inbound_id;
      claim_token = token;
      expires = expires;
      record_of = record_of;
    })
