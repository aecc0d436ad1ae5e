-- ===== src/Store/Outbound/NewJob.antt =====
-- crates/tith-store/src/outbound.rs: the job that is made of a submission, `validate_new_job` and
-- `make_job`.
use tith.Base.{
  ℕ, ◌+◌, Bool, true, false, not, ◌==◌, ◌&&◌, ◌||◌, nat_eq, list_eq, if◌then◌else◌, List, [], ◌∷◌,
  length, none, option_eq, Result, ok, err,
}
use tith.Base.Options.{is_some}
use tith.Wire.Types
use tith.Wire.Tlv.{OwnedTlv, parse_sequence}
use tith.Store.Types.{
  Text, JobKind, is_direct, has_destination, JobTarget, JobState, NewDelivery, DeliveryRecord,
  SourceRecord, NewOutboundJob, OutboundJob, StoreError, corrupt_record, invalid_payload,
}
use tith.Store.Outbound.{aggregate_state}

abbrev is_area : JobTarget → Bool
is_area (JobTarget.destination text) = false
is_area (JobTarget.area text) = true

-- The type code of the item that each kind of job carries.
unfoldable pub item_code : JobKind → ℕ
item_code JobKind.net_mail = Types.message
item_code JobKind.echo_mail = Types.message
item_code JobKind.file = Types.file
item_code JobKind.peer_file = Types.file
item_code JobKind.file_request = Types.file_request

abbrev fits : JobKind → List OwnedTlv → Bool
fits kind (item ∷ []) = item.type_code == item_code kind
fits kind _ = false

abbrev carries : JobKind → List ℕ → Bool
carries kind item = elim (parse_sequence item) [ ok parsed ↦ fits kind parsed | err _ ↦ false ]

abbrev differ : Bool → Bool → Bool
differ false b = b
differ true b = not b

abbrev numbered_from : ℕ → List SourceRecord → Bool
numbered_from index [] = true
numbered_from index (source ∷ sources) = source.index == index && numbered_from (index + 1) sources

unfoldable pub validate_new_job : NewOutboundJob → Result StoreError (Unit {0})
unfolding item_code
validate_new_job value =
    if not (carries value.kind value.item)
    then err invalid_payload
    else if differ (has_destination value.kind) (not (is_area value.target))
        || not (has_destination value.kind) && not (is_area value.target)
        || length value.deliveries == 0 && not (is_some value.forward_inbound)
        || is_direct value.kind && not (length value.deliveries == 1)
        || differ (is_some value.forward_inbound) (is_some value.forward_claim_token)
        || length value.local_identity == 0
    then err corrupt_record
    else if numbered_from 1 value.sources
    then ok tt
    else err corrupt_record

unfoldable pub make_copies : ℕ → List NewDelivery → List DeliveryRecord
make_copies index [] = []
make_copies index (copy ∷ copies) =
    record {
      index = index;
      local_identity = copy.local_identity;
      next_hop = copy.next_hop;
      next_hop_key = copy.next_hop_key;
      mode = copy.mode;
      class = copy.class;
      retry_at = copy.retry_at;
      policies = copy.policies;
      state = if is_some copy.retry_at then JobState.deferred else JobState.queued;
      attempts = 0;
      last_result = [];
      last_failure = none;
      worker_token = none;
    }
    ∷ make_copies (index + 1) copies

unfoldable pub make_job : Text → NewOutboundJob → OutboundJob
unfolding make_copies aggregate_state
make_job job_id value =
    let deliveries = make_copies 1 value.deliveries in
    record {
      job_id = job_id;
      application = value.identity.application;
      idempotency_key = value.identity.idempotency_key;
      digest = value.identity.digest;
      kind = value.kind;
      target = value.target;
      local_identity = value.local_identity;
      state = if length deliveries == 0 then JobState.delivered else aggregate_state deliveries;
      created = value.created;
      changed = value.created;
      deliveries = deliveries;
      sources = value.sources;
      forward_inbound = value.forward_inbound;
      last_result = [];
    }
