-- ===== src/Store/Outbound/Storable.antt =====
-- crates/tith-store/src/outbound.rs: every operation leaves a job that its encoding can hold.
use tith.Base.{
  ℕ, suc, ◌≡◌, refl, sym, ap, subst, arith, Bool, Bool-cases, not, ◌||◌, ◌==◌, list_eq, nat_eq,
  option_eq, List, [], ◌∷◌, All, length, inl, inr,
}
use tith.Wire.Integer.{IsU64}
use tith.Wire.Cursor.{is_utf8}
use tith.Store.Types.{Text, JobState, NewDelivery, DeliveryRecord, OutboundJob}
use tith.Store.JobCodes.{state_code}
use tith.Store.JobCodec.Parts.{IsStorableCopy}
use tith.Store.JobCodec.RoundTrip.{IsStorable}
use tith.Store.Bytes.Reading.{IsText}
use tith.Store.Outbound.{same_state, any_in, settle_job}
use tith.Store.Outbound.Control.{
  any_that, is_net_mail, reset_copy, reset_all, may_cancel, may_retry, cancelled_text, retry_text,
  rerouted_text, cancel_update, retry_update, reroute_copy, reroute_first, reroute_update,
}

-- New copies in place of those of a job, as many as they.
pub with_copies-IsStorable :
    (job : OutboundJob) (copies : List DeliveryRecord)
    → IsStorable job
    → length copies ≡ length job.deliveries
    → All IsStorableCopy copies
    → IsStorable (record job { deliveries = copies })
with_copies-IsStorable job copies h same storable = record {
  job_id = h.job_id;
  application = h.application;
  idempotency_key = h.idempotency_key;
  digest = h.digest;
  target = h.target;
  local_identity = h.local_identity;
  created = h.created;
  changed = h.changed;
  last_result = h.last_result;
  forward_inbound = h.forward_inbound;
  delivery_count = subst IsU64 (sym same) h.delivery_count;
  deliveries = storable;
  source_count = h.source_count;
  sources = h.sources;
}

-- The time of the change, the state and the text of the result.
pub settle_job-IsStorable :
    (now : ℕ) (result : Text) (job : OutboundJob)
    → IsU64 now
    → IsText result
    → IsStorable job
    → IsStorable (record (settle_job now job) { last_result = result })
unfolding settle_job
settle_job-IsStorable now result job time text h = record {
  job_id = h.job_id;
  application = h.application;
  idempotency_key = h.idempotency_key;
  digest = h.digest;
  target = h.target;
  local_identity = h.local_identity;
  created = h.created;
  changed = time;
  last_result = text;
  forward_inbound = h.forward_inbound;
  delivery_count = h.delivery_count;
  deliveries = h.deliveries;
  source_count = h.source_count;
  sources = h.sources;
}

-- The loops of `cancel` and `retry`.
module _ (may : JobState → Bool) (state : JobState) (text : Text) (storable : IsText text) where
  reset_copy-IsStorable :
      (copy : DeliveryRecord)
      → IsStorableCopy copy
      → IsStorableCopy (reset_copy may state text copy)
  reset_copy-IsStorable copy h = elim (Bool-cases (may copy.state)) [
    | inl e ↦ rw e (record {
      index = h.index;
      local_identity = h.local_identity;
      next_hop = h.next_hop;
      next_hop_key = h.next_hop_key;
      class = h.class;
      retry_at = tt;
      attempts = h.attempts;
      last_result = storable;
      worker_token = h.worker_token;
    })
    | inr e ↦ rw e h
  ]

  reset_all-IsStorable :
      (copies : List DeliveryRecord)
      → All IsStorableCopy copies
      → All IsStorableCopy (reset_all may state text copies)
  reset_all-IsStorable [] h = tt
  reset_all-IsStorable (copy ∷ copies) h =
      (reset_copy-IsStorable copy h.0, reset_all-IsStorable copies h.1)

  length-reset_all :
      (copies : List DeliveryRecord) → length (reset_all may state text copies) ≡ length copies
  length-reset_all [] = refl
  length-reset_all (copy ∷ copies) = ap suc (length-reset_all copies)

  reset-IsStorable :
      (job : OutboundJob)
      → IsStorable job
      → IsStorable (record job { deliveries = reset_all may state text job.deliveries })
  reset-IsStorable job h =
      with_copies-IsStorable job (reset_all may state text job.deliveries) h
        (length-reset_all job.deliveries) (reset_all-IsStorable job.deliveries h.deliveries)

pub cancelled_text-IsText : IsText cancelled_text
unfolding is_utf8
cancelled_text-IsText = (refl, omega arith)

pub retry_text-IsText : IsText retry_text
unfolding is_utf8
retry_text-IsText = (refl, omega arith)

pub rerouted_text-IsText : IsText rerouted_text
unfolding is_utf8
rerouted_text-IsText = (refl, omega arith)

pub cancel_update-IsStorable :
    (job : OutboundJob) → IsStorable job → IsStorable (cancel_update job).1
unfolding cancel_update state_code
cancel_update-IsStorable job h = elim (Bool-cases (any_in JobState.active job.deliveries)) [
  | inl busy ↦ rw busy h
  | inr idle ↦ elim (Bool-cases (same_state job.state JobState.cancelled)) [
    | inl over ↦ rw (idle, over) h
    | inr live ↦ elim (Bool-cases (any_that may_cancel job.deliveries)) [
      | inl e ↦
          rw (idle, live, e)
            (reset-IsStorable may_cancel JobState.cancelled cancelled_text cancelled_text-IsText job
              h)
      | inr e ↦ rw (idle, live, e) h
    ]
  ]
]

pub retry_update-IsStorable : (job : OutboundJob) → IsStorable job → IsStorable (retry_update job).1
unfolding retry_update state_code
retry_update-IsStorable job h = elim (Bool-cases (any_that may_retry job.deliveries)) [
  | inl e ↦ rw e (reset-IsStorable may_retry JobState.queued retry_text retry_text-IsText job h)
  | inr e ↦ rw e h
]

-- What a new delivery holds in place of the old one.
pub record IsStorableDelivery (delivery : NewDelivery) : Type 0 where
  pub local_identity : IsText delivery.local_identity
  pub next_hop : IsText delivery.next_hop
  pub class : IsText delivery.class

reroute_first-IsStorable :
    (delivery : NewDelivery) (copies : List DeliveryRecord)
    → IsStorableDelivery delivery
    → All IsStorableCopy copies
    → All IsStorableCopy (reroute_first delivery copies)
unfolding reroute_copy
reroute_first-IsStorable delivery [] d h = tt
reroute_first-IsStorable delivery (copy ∷ copies) d h = (
  record {
    index = h.0.index;
    local_identity = d.local_identity;
    next_hop = d.next_hop;
    next_hop_key = h.0.next_hop_key;
    class = d.class;
    retry_at = tt;
    attempts = h.0.attempts;
    last_result = rerouted_text-IsText;
    worker_token = h.0.worker_token;
  },
  h.1,
)

length-reroute_first :
    (delivery : NewDelivery) (copies : List DeliveryRecord)
    → length (reroute_first delivery copies) ≡ length copies
length-reroute_first delivery [] = refl
length-reroute_first delivery (copy ∷ copies) = refl

pub reroute_update-IsStorable :
    (delivery : NewDelivery) (job : OutboundJob)
    → IsStorableDelivery delivery
    → IsStorable job
    → IsStorable (reroute_update delivery job).1
unfolding reroute_update state_code
reroute_update-IsStorable delivery job d h =
    elim (Bool-cases (
      not (is_net_mail job.kind)
      || not (length job.deliveries == 1)
      || (same_state job.state JobState.delivered || same_state job.state JobState.cancelled))) [
        | inl e ↦ rw e h
        | inr e ↦ elim (Bool-cases (same_state job.state JobState.active)) [
          | inl busy ↦ rw (e, busy) h
          | inr idle ↦
              rw (e, idle)
                (with_copies-IsStorable job (reroute_first delivery job.deliveries) h
                  (length-reroute_first delivery job.deliveries)
                  (reroute_first-IsStorable delivery job.deliveries d h.deliveries))
        ]
      ]
