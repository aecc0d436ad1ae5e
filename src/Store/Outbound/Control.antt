-- ===== src/Store/Outbound/Control.antt =====
-- crates/tith-store/src/outbound.rs: what the control operations do to one job: cancel, retry and reroute.
use tith.Base.{
  Bool, true, false, not, ◌==◌, ◌&&◌, ◌||◌, ◌=?◌, nat_eq, list_eq, if◌then◌else◌, List, [], ◌∷◌,
  length, none, option_eq,
}
use tith.Store.Types.{
  Text, JobKind, JobState, NewDelivery, DeliveryRecord, OutboundJob, ControlOutcome, completed,
  busy, not_permitted,
}
use tith.Store.JobCodes.{state_code}
use tith.Store.Outbound.{same_state, any_in}

-- "Cancelled", "Retry requested" and "Rerouted".
abbrev pub cancelled_text : Text
cancelled_text = 67 ∷ 97 ∷ 110 ∷ 99 ∷ 101 ∷ 108 ∷ 108 ∷ 101 ∷ 100 ∷ []

abbrev pub retry_text : Text
retry_text =
    82 ∷ 101 ∷ 116 ∷ 114 ∷ 121 ∷ 32 ∷ 114 ∷ 101 ∷ 113 ∷ 117 ∷ 101 ∷ 115 ∷ 116 ∷ 101 ∷ 100 ∷ []

abbrev pub rerouted_text : Text
rerouted_text = 82 ∷ 101 ∷ 114 ∷ 111 ∷ 117 ∷ 116 ∷ 101 ∷ 100 ∷ []

-- What a control operation answers, and the job as its `update` leaves it.
abbrev pub Controlled : Type 0
Controlled = ControlOutcome × OutboundJob

unfoldable pub may_cancel : JobState → Bool
may_cancel JobState.queued = true
may_cancel JobState.deferred = true
may_cancel JobState.rejected = true
may_cancel JobState.failed = true
may_cancel _ = false

unfoldable pub may_retry : JobState → Bool
may_retry JobState.deferred = true
may_retry JobState.failed = true
may_retry _ = false

-- A round of the loops of `cancel` and `retry`, which differ in the state and the text they set.
abbrev pub reset_copy : (JobState → Bool) → JobState → Text → DeliveryRecord → DeliveryRecord
reset_copy may state text copy =
    if may copy.state
    then record copy { state = state; retry_at = none; last_failure = none; last_result = text }
    else copy

abbrev pub any_that : (JobState → Bool) → List DeliveryRecord → Bool
any_that may [] = false
any_that may (copy ∷ copies) = may copy.state || any_that may copies

abbrev pub reset_all :
    (JobState → Bool) → JobState → Text → List DeliveryRecord → List DeliveryRecord
reset_all may state text [] = []
reset_all may state text (copy ∷ copies) =
    reset_copy may state text copy ∷ reset_all may state text copies

unfoldable pub cancel_update : OutboundJob → Controlled
unfolding state_code may_cancel
cancel_update job =
    if any_in JobState.active job.deliveries
    then (busy job.state, job)
    else if same_state job.state JobState.cancelled
    then (completed job.state, job)
    else if any_that may_cancel job.deliveries
    then (
      completed JobState.cancelled,
      record job {
        deliveries = reset_all may_cancel JobState.cancelled cancelled_text job.deliveries;
      },
    )
    else (not_permitted job.state, job)

unfoldable pub retry_update : OutboundJob → Controlled
unfolding may_retry
retry_update job =
    if any_that may_retry job.deliveries
    then (
      completed JobState.queued,
      record job { deliveries = reset_all may_retry JobState.queued retry_text job.deliveries },
    )
    else (not_permitted job.state, job)

-- What `reroute` assigns: the key of the next hop is not among it.
unfoldable pub reroute_copy : NewDelivery → DeliveryRecord → DeliveryRecord
reroute_copy delivery copy = record copy {
  local_identity = delivery.local_identity;
  next_hop = delivery.next_hop;
  mode = delivery.mode;
  class = delivery.class;
  retry_at = none;
  policies = delivery.policies;
  state = JobState.queued;
  last_failure = none;
  last_result = rerouted_text;
}

abbrev pub is_net_mail : JobKind → Bool
is_net_mail JobKind.net_mail = true
is_net_mail _ = false

abbrev pub reroute_first : NewDelivery → List DeliveryRecord → List DeliveryRecord
reroute_first delivery [] = []
reroute_first delivery (copy ∷ copies) = reroute_copy delivery copy ∷ copies

unfoldable pub reroute_update : NewDelivery → OutboundJob → Controlled
unfolding state_code reroute_copy
reroute_update delivery job =
    if not (is_net_mail job.kind)
      || not (length job.deliveries == 1)
      || (same_state job.state JobState.delivered || same_state job.state JobState.cancelled)
    then (not_permitted job.state, job)
    else if same_state job.state JobState.active
    then (busy job.state, job)
    else (
      completed JobState.queued,
      record job { deliveries = reroute_first delivery job.deliveries },
    )

abbrev pub is_completed : ControlOutcome → Bool
is_completed (completed state) = true
is_completed _ = false

-- Whether `control` stores what its update made of the job.
unfoldable pub control_writes : OutboundJob → Text → Controlled → Bool
unfolding state_code
control_writes previous result (outcome, job) =
    is_completed outcome
    && (not (same_state job.state previous.state) || not (job.last_result =? result))

abbrev pub restate : ControlOutcome → JobState → ControlOutcome
restate (completed _) state = completed state
restate outcome state = outcome
