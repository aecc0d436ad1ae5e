-- ===== src/Store/Outbound/Sound.antt =====
-- crates/tith-store/src/outbound.rs: what every operation of the outbound store keeps true of a job.
use tith.Base.{
  ℕ, ◌+◌, ◌≡◌, refl, sym, ◌∙◌, Bool, true, false, Bool-cases, not, ◌||◌, ◌==◌, List, [], ◌∷◌,
  length, All, inl, inr, or-false,
}
use tith.Base.Options.{is_some}
use tith.Store.Types.{Text, JobState, NewDelivery, DeliveryRecord, OutboundJob}
use tith.Store.JobCodes.{state_code}
use tith.Store.Outbound.{same_state, any_in, aggregate_state, settle_job}
use tith.Store.Outbound.Control.{
  any_that, is_net_mail, cancelled_text, retry_text, may_cancel, may_retry, reset_copy, reset_all,
  cancel_update, retry_update, reroute_copy, reroute_first, reroute_update,
}

-- A worker holds exactly the active copies, a failure is recorded of exactly the rejected ones, and a
-- time to try again stands in exactly the deferred ones.
pub record IsSoundCopy (copy : DeliveryRecord) : Type 0 where
  pub token : is_some copy.worker_token ≡ same_state copy.state JobState.active
  pub failure : is_some copy.last_failure ≡ same_state copy.state JobState.rejected
  pub retry : is_some copy.retry_at ≡ same_state copy.state JobState.deferred

abbrev pub IsNumbered : ℕ → List DeliveryRecord → Type 0
IsNumbered index [] = Unit
IsNumbered index (copy ∷ copies) = (copy.index ≡ index) × IsNumbered (index + 1) copies

-- The copies of a job are numbered from 1, and its state is what theirs make.
pub record IsSound (job : OutboundJob) : Type 0 where
  pub copies : All IsSoundCopy job.deliveries
  pub numbers : IsNumbered 1 job.deliveries
  pub state : job.state ≡ aggregate_state job.deliveries

pub settle_job-IsSound :
    (now : ℕ) (job : OutboundJob)
    → All IsSoundCopy job.deliveries
    → IsNumbered 1 job.deliveries
    → IsSound (settle_job now job)
unfolding settle_job
settle_job-IsSound now job copies numbers = record {
  copies = copies;
  numbers = numbers;
  state = refl;
}

may_cancel-idle : (s : JobState) → may_cancel s ≡ true → same_state s JobState.active ≡ false
unfolding may_cancel state_code
may_cancel-idle JobState.queued h = refl
may_cancel-idle JobState.active h = cc
may_cancel-idle JobState.deferred h = refl
may_cancel-idle JobState.delivered h = refl
may_cancel-idle JobState.rejected h = refl
may_cancel-idle JobState.failed h = refl
may_cancel-idle JobState.cancelled h = refl

may_retry-idle : (s : JobState) → may_retry s ≡ true → same_state s JobState.active ≡ false
unfolding may_retry state_code
may_retry-idle JobState.queued h = cc
may_retry-idle JobState.active h = cc
may_retry-idle JobState.deferred h = refl
may_retry-idle JobState.delivered h = refl
may_retry-idle JobState.rejected h = refl
may_retry-idle JobState.failed h = refl
may_retry-idle JobState.cancelled h = refl

-- The loops of `cancel` and `retry`, whatever idle state they set.
module _ (may : JobState → Bool) (state : JobState) (text : Text)
    (idle : (s : JobState) → may s ≡ true → same_state s JobState.active ≡ false)
    (active : same_state state JobState.active ≡ false)
    (rejected : same_state state JobState.rejected ≡ false)
    (deferred : same_state state JobState.deferred ≡ false) where
  reset_copy-IsSound :
      (copy : DeliveryRecord) → IsSoundCopy copy → IsSoundCopy (reset_copy may state text copy)
  reset_copy-IsSound copy h = elim (Bool-cases (may copy.state)) [
    | inl e ↦ rw e (record {
      token = h.token ∙ idle copy.state e ∙ sym active;
      failure = sym rejected;
      retry = sym deferred;
    })
    | inr e ↦ rw e h
  ]

  reset_all-IsSound :
      (copies : List DeliveryRecord)
      → All IsSoundCopy copies
      → All IsSoundCopy (reset_all may state text copies)
  reset_all-IsSound [] h = tt
  reset_all-IsSound (copy ∷ copies) h = (reset_copy-IsSound copy h.0, reset_all-IsSound copies h.1)

  reset_all-IsNumbered :
      (index : ℕ) (copies : List DeliveryRecord)
      → IsNumbered index copies
      → IsNumbered index (reset_all may state text copies)
  reset_all-IsNumbered index [] h = tt
  reset_all-IsNumbered index (copy ∷ copies) h = elim (Bool-cases (may copy.state)) [
    | inl e ↦ rw e (h.0, reset_all-IsNumbered (index + 1) copies h.1)
    | inr e ↦ rw e (h.0, reset_all-IsNumbered (index + 1) copies h.1)
  ]

-- An update that leaves sound copies, numbered from 1, whatever state it leaves the job in.
pub record KeepsCopies (job : OutboundJob) : Type 0 where
  pub copies : All IsSoundCopy job.deliveries
  pub numbers : IsNumbered 1 job.deliveries

pub cancel_update-KeepsCopies :
    (job : OutboundJob) → IsSound job → KeepsCopies (cancel_update job).1
unfolding cancel_update state_code
cancel_update-KeepsCopies job h =
    let same : KeepsCopies job = record { copies = h.copies; numbers = h.numbers } in
    let reset : KeepsCopies (record job {
      deliveries = reset_all may_cancel JobState.cancelled cancelled_text job.deliveries;
    }) =
      record {
        copies =
            reset_all-IsSound may_cancel _ cancelled_text may_cancel-idle refl refl refl
              job.deliveries h.copies;
        numbers =
            reset_all-IsNumbered may_cancel JobState.cancelled cancelled_text may_cancel-idle refl
              refl refl 1 job.deliveries h.numbers;
      } in
    elim (Bool-cases (any_in JobState.active job.deliveries)) [
      | inl busy ↦ rw busy same
      | inr idle ↦ elim (Bool-cases (same_state job.state JobState.cancelled)) [
        | inl over ↦ rw (idle, over) same
        | inr live ↦ elim (Bool-cases (any_that may_cancel job.deliveries)) [
          | inl e ↦ rw (idle, live, e) reset
          | inr e ↦ rw (idle, live, e) same
        ]
      ]
    ]

pub retry_update-KeepsCopies : (job : OutboundJob) → IsSound job → KeepsCopies (retry_update job).1
unfolding retry_update state_code
retry_update-KeepsCopies job h =
    let same : KeepsCopies job = record { copies = h.copies; numbers = h.numbers } in
    let reset : KeepsCopies (record job {
      deliveries = reset_all may_retry JobState.queued retry_text job.deliveries;
    }) =
      record {
        copies =
            reset_all-IsSound may_retry _ retry_text may_retry-idle refl refl refl job.deliveries
              h.copies;
        numbers =
            reset_all-IsNumbered may_retry JobState.queued retry_text may_retry-idle refl refl refl
              1 job.deliveries h.numbers;
      } in
    elim (Bool-cases (any_that may_retry job.deliveries)) [ inl e ↦ rw e reset | inr e ↦ rw e same ]

-- A job that is not active has no active copy.
aggregate_state-active :
    (copies : List DeliveryRecord)
    → same_state (aggregate_state copies) JobState.active ≡ false
    → any_in JobState.active copies ≡ false
unfolding aggregate_state state_code
aggregate_state-active copies h = elim (Bool-cases (any_in JobState.active copies)) [
  | inl e ↦ let wrong = rw (e, aggregate_state) at h in cc
  | inr e ↦ e
]

reroute_first-IsSound :
    (delivery : NewDelivery) (copies : List DeliveryRecord)
    → any_in JobState.active copies ≡ false
    → All IsSoundCopy copies
    → All IsSoundCopy (reroute_first delivery copies)
unfolding reroute_copy state_code
reroute_first-IsSound delivery [] idle h = tt
reroute_first-IsSound delivery (copy ∷ copies) idle h =
    let free : same_state copy.state JobState.active ≡ false = (or-false _ _ idle).0 in
    (record { token = h.0.token ∙ free; failure = refl; retry = refl }, h.1)

reroute_first-IsNumbered :
    (delivery : NewDelivery) (copies : List DeliveryRecord)
    → IsNumbered 1 copies
    → IsNumbered 1 (reroute_first delivery copies)
unfolding reroute_copy
reroute_first-IsNumbered delivery [] h = tt
reroute_first-IsNumbered delivery (copy ∷ copies) h = h

pub reroute_update-KeepsCopies :
    (delivery : NewDelivery) (job : OutboundJob)
    → IsSound job
    → KeepsCopies (reroute_update delivery job).1
unfolding reroute_update state_code
reroute_update-KeepsCopies delivery job h =
    let same : KeepsCopies job = record { copies = h.copies; numbers = h.numbers } in
    elim (Bool-cases (
      not (is_net_mail job.kind)
      || not (length job.deliveries == 1)
      || (same_state job.state JobState.delivered || same_state job.state JobState.cancelled))) [
        | inl e ↦ rw e same
        | inr e ↦ elim (Bool-cases (same_state job.state JobState.active)) [
          | inl busy ↦ rw (e, busy) same
          | inr idle ↦
              let none_active = aggregate_state-active job.deliveries (rw h.state at idle) in
              rw (e, idle)
                (record {
                  copies = reroute_first-IsSound delivery job.deliveries none_active h.copies;
                  numbers = reroute_first-IsNumbered delivery job.deliveries h.numbers;
                })
        ]
      ]

pub cancel_update-job_id : (job : OutboundJob) → job.job_id ≡ (cancel_update job).1.job_id
unfolding cancel_update state_code
cancel_update-job_id job = elim (Bool-cases (any_in JobState.active job.deliveries)) [
  | inl busy ↦ rw busy
  | inr idle ↦ elim (Bool-cases (same_state job.state JobState.cancelled)) [
    | inl over ↦ rw (idle, over)
    | inr live ↦ elim (Bool-cases (any_that may_cancel job.deliveries)) [
      | inl e ↦ rw (idle, live, e)
      | inr e ↦ rw (idle, live, e)
    ]
  ]
]

pub retry_update-job_id : (job : OutboundJob) → job.job_id ≡ (retry_update job).1.job_id
unfolding retry_update
retry_update-job_id job = elim (Bool-cases (any_that may_retry job.deliveries)) [
  | inl e ↦ rw e
  | inr e ↦ rw e
]

pub reroute_update-job_id :
    (delivery : NewDelivery) (job : OutboundJob)
    → job.job_id ≡ (reroute_update delivery job).1.job_id
unfolding reroute_update state_code
reroute_update-job_id delivery job =
    elim (Bool-cases (
      not (is_net_mail job.kind)
      || not (length job.deliveries == 1)
      || (same_state job.state JobState.delivered || same_state job.state JobState.cancelled))) [
        | inl e ↦ rw e
        | inr e ↦ elim (Bool-cases (same_state job.state JobState.active)) [
          | inl busy ↦ rw (e, busy)
          | inr idle ↦ rw (e, idle)
        ]
      ]
