-- ===== src/Store/Outbound/Created.antt =====
-- crates/tith-store/src/outbound.rs: a new job is sound.
use tith.Base.{
  ℕ, suc, ◌+◌, ◌≡◌, refl, arith, false, Bool-cases, ◌==◌, if◌then◌else◌, List, [], ◌∷◌, length, All,
  inl, inr,
}
use tith.Base.Options.{is_some}
use tith.Store.Types.{Text, JobState, NewDelivery, DeliveryRecord, NewOutboundJob}
use tith.Store.JobCodes.{state_code}
use tith.Store.Outbound.{aggregate_state}
use tith.Store.Outbound.NewJob.{make_copies, make_job}
use tith.Store.Outbound.Sound.{IsSoundCopy, IsNumbered, IsSound}

make_copies-IsSound :
    (index : ℕ) (copies : List NewDelivery) → All IsSoundCopy (make_copies index copies)
unfolding make_copies state_code
make_copies-IsSound index [] = tt
make_copies-IsSound index (copy ∷ copies) = (
  elim (Bool-cases (is_some copy.retry_at)) [
    | inl e ↦ record { token = rw e; failure = rw e; retry = rw e }
    | inr e ↦ record { token = rw e; failure = rw e; retry = rw e }
  ],
  make_copies-IsSound (index + 1) copies,
)

make_copies-IsNumbered :
    (index : ℕ) (copies : List NewDelivery) → IsNumbered index (make_copies index copies)
unfolding make_copies
make_copies-IsNumbered index [] = tt
make_copies-IsNumbered index (copy ∷ copies) = (refl, make_copies-IsNumbered (index + 1) copies)

-- A job without copies counts as delivered, as it would without that case.
aggregate_state-empty :
    (copies : List DeliveryRecord)
    → (if length copies == 0 then JobState.delivered else aggregate_state copies)
      ≡ aggregate_state copies
unfolding aggregate_state
aggregate_state-empty [] = refl
aggregate_state-empty (copy ∷ copies) =
    let some_copy : (suc (length copies) == 0) ≡ false = ground arith in rw some_copy

pub make_job-IsSound : (job_id : Text) (value : NewOutboundJob) → IsSound (make_job job_id value)
unfolding make_job
make_job-IsSound job_id value = record {
  copies = make_copies-IsSound 1 value.deliveries;
  numbers = make_copies-IsNumbered 1 value.deliveries;
  state = aggregate_state-empty (make_copies 1 value.deliveries);
}
