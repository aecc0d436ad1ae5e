-- ===== src/Store/Outbound.antt =====
-- crates/tith-store/src/outbound.rs: what the operations of the outbound store do to one job.
pub mod Control
pub mod Sound
pub mod NewJob
pub mod Created
pub mod Copies
pub mod Changes
pub mod Storable
pub mod Reported
pub mod Operations
pub mod Spool
pub mod Refines
pub mod Controls
pub mod Claims
pub mod Holder
pub mod Reroute
pub mod Snapshot
mod Sample
mod Runs
mod RerouteRuns
mod SnapshotRuns
use tith.Base.{
  ℕ, zero, suc, ◌+◌, ◌*◌, ◌^◌, Bool, true, false, not, ltb, leb, ◌==◌, ◌&&◌, ◌||◌, ◌=?◌, nat_eq,
  list_eq, if◌then◌else◌, List, [], ◌∷◌, ◌++◌, length, any, map, Option, none, some, option_eq,
  Result, ok, err, ◌>>=◌,
}
use tith.Base.Options.{is_some}
use tith.Wire.Types
use tith.Wire.Tlv.{OwnedTlv, parse_sequence}
use tith.Store.Types.{
  Text, JobKind, is_direct, has_destination, JobTarget, JobState, DeliveryMode, NewDelivery,
  DeliveryRecord, SourceRecord, NewOutboundJob, OutboundJob, DeliveryOutcome, ControlOutcome,
  completed, busy, not_permitted, StoreError, corrupt_record, invalid_payload, not_found, job_stale,
  stuck, PermanentFailureKind,
}
use tith.Store.JobCodes.{state_code}

abbrev pub same_state : JobState → JobState → Bool
same_state left right = state_code left == state_code right

abbrev pub any_in : JobState → List DeliveryRecord → Bool
any_in state [] = false
any_in state (copy ∷ copies) = same_state copy.state state || any_in state copies

unfoldable pub aggregate_state : List DeliveryRecord → JobState
unfolding state_code
aggregate_state copies =
    if any_in JobState.active copies
    then JobState.active
    else if any_in JobState.queued copies
    then JobState.queued
    else if any_in JobState.deferred copies
    then JobState.deferred
    else if any_in JobState.failed copies
    then JobState.failed
    else if any_in JobState.rejected copies
    then JobState.rejected
    else if any_in JobState.cancelled copies
    then JobState.cancelled
    else JobState.delivered

-- The job with its new copies: its state follows from theirs.
unfoldable pub settle_job : ℕ → OutboundJob → OutboundJob
unfolding aggregate_state
settle_job now job = record job { state = aggregate_state job.deliveries; changed = now }

-- Whether a copy may be claimed.
unfoldable pub eligible : ℕ → (DeliveryRecord → Bool) → DeliveryRecord → Bool
unfolding state_code
eligible now matches_selector copy =
    matches_selector copy
    && (same_state copy.state JobState.queued || same_state copy.state JobState.deferred)
    && elim copy.retry_at [ none ↦ true | some retry ↦ leb retry now ]

-- A claimed copy, with the attempt it counts: `checked_add`.
unfoldable pub claim_copy : Text → DeliveryRecord → Result StoreError DeliveryRecord
claim_copy token copy =
    if ltb (copy.attempts + 1) (2 ^ 64)
    then ok (record copy {
      state = JobState.active;
      attempts = copy.attempts + 1;
      retry_at = none;
      worker_token = some token;
    })
    else err corrupt_record

abbrev pub result_of : DeliveryOutcome → Text
result_of (DeliveryOutcome.delivered result) = result
result_of (DeliveryOutcome.deferred retry_at result) = result
result_of (DeliveryOutcome.rejected kind result) = result
result_of (DeliveryOutcome.failed result) = result

abbrev pub state_after : DeliveryOutcome → JobState
state_after (DeliveryOutcome.delivered result) = JobState.delivered
state_after (DeliveryOutcome.deferred retry_at result) = JobState.deferred
state_after (DeliveryOutcome.rejected kind result) = JobState.rejected
state_after (DeliveryOutcome.failed result) = JobState.failed

abbrev pub retry_after : DeliveryOutcome → Option ℕ
retry_after (DeliveryOutcome.deferred retry_at result) = some retry_at
retry_after _ = none

abbrev pub failure_after : DeliveryOutcome → Option PermanentFailureKind
failure_after (DeliveryOutcome.rejected kind result) = some kind
failure_after _ = none

unfoldable pub finish_copy :
    JobState → Text → DeliveryOutcome → DeliveryRecord → Result StoreError DeliveryRecord
unfolding state_code
finish_copy job_state token outcome copy =
    if not (same_state copy.state JobState.active) || not (copy.worker_token =? some token)
    then err (job_stale job_state)
    else ok (record copy {
      last_failure = failure_after outcome;
      state = state_after outcome;
      retry_at = retry_after outcome;
      last_result = result_of outcome;
      worker_token = none;
    })

-- The change of the first copy that has an index, and of the one at a position.
abbrev pub at_index :
    ℕ
    → (DeliveryRecord → Result StoreError DeliveryRecord)
    → List DeliveryRecord
    → Result StoreError (List DeliveryRecord)
at_index index change [] = err not_found
at_index index change (copy ∷ copies) =
    let rest = at_index index change copies >>= λ changed. ok (copy ∷ changed) in
    if copy.index == index then (change copy >>= λ changed. ok (changed ∷ copies)) else rest

-- `&mut job.deliveries[index]`; the positions that the code uses are in range.
abbrev pub at_position :
    ℕ
    → (DeliveryRecord → Result StoreError DeliveryRecord)
    → List DeliveryRecord
    → Result StoreError (List DeliveryRecord)
at_position position change [] = err stuck
at_position zero change (copy ∷ copies) = change copy >>= λ changed. ok (changed ∷ copies)
at_position (suc position) change (copy ∷ copies) =
    at_position position change copies >>= λ changed. ok (copy ∷ changed)

unfoldable pub claim_job : ℕ → Text → ℕ → OutboundJob → Result StoreError OutboundJob
unfolding claim_copy settle_job
claim_job now token position job =
    at_position position (claim_copy token) job.deliveries >>= λ copies.
    ok (settle_job now (record job { deliveries = copies }))

unfoldable pub finish_job :
    ℕ → Text → ℕ → DeliveryOutcome → OutboundJob → Result StoreError OutboundJob
unfolding finish_copy settle_job
finish_job index token now outcome job =
    at_index index (finish_copy job.state token outcome) job.deliveries >>= λ copies.
    ok (settle_job now (record job { deliveries = copies; last_result = result_of outcome }))

unfoldable pub recover_copy : ℕ → Text → DeliveryRecord → DeliveryRecord
unfolding state_code
recover_copy retry_at result copy =
    if same_state copy.state JobState.active
    then record copy {
      state = JobState.deferred;
      retry_at = some retry_at;
      last_result = result;
      worker_token = none;
    }
    else copy

abbrev pub recover_all : ℕ → Text → List DeliveryRecord → List DeliveryRecord
recover_all retry_at result [] = []
recover_all retry_at result (copy ∷ copies) =
    recover_copy retry_at result copy ∷ recover_all retry_at result copies

unfoldable pub recover_job : ℕ → ℕ → Text → OutboundJob → Option OutboundJob
unfolding recover_copy settle_job
recover_job now retry_at result job =
    if any_in JobState.active job.deliveries
    then some (
        settle_job now (record job {
          deliveries = recover_all retry_at result job.deliveries;
          last_result = result;
        }))
    else none
