-- ===== src/Store/Outbound/Reroute.antt =====
-- crates/tith-store/src/outbound.rs: what `reroute` leaves of a job.
use tith.Base.{
  ℕ, ◌≡◌, refl, Bool, true, false, Bool-cases, not, ◌&&◌, ◌||◌, ◌==◌, ==_iff, ◌=?◌, nat_eq, list_eq,
  list_beq_iff, length, ok, inl, inr,
}
use tith.Store.Types.{Text, JobState, NewDelivery, OutboundJob}
use tith.Store.JobCodes.{state_code}
use tith.Store.Table.{Tables, Db}
use tith.Store.Outbound.{same_state}
use tith.Store.Outbound.Control.{
  is_net_mail, control_writes, restate, rerouted_text, reroute_update,
}
use tith.Store.Outbound.Operations.{query, control, reroute}

-- The update changes neither the state of the job nor its result.
reroute_update-same :
    (delivery : NewDelivery) (job : OutboundJob)
    → ((reroute_update delivery job).1.state ≡ job.state)
      × ((reroute_update delivery job).1.last_result ≡ job.last_result)
unfolding reroute_update state_code
reroute_update-same delivery job =
    elim (Bool-cases (
      not (is_net_mail job.kind)
      || not (length job.deliveries == 1)
      || (same_state job.state JobState.delivered || same_state job.state JobState.cancelled))) [
        | inl e ↦ (rw e, rw e)
        | inr e ↦ elim (Bool-cases (same_state job.state JobState.active)) [
          | inl busy ↦ (rw (e, busy), rw (e, busy))
          | inr idle ↦ (rw (e, idle), rw (e, idle))
        ]
      ]

and-false : (b : Bool) → (b && false) ≡ false
and-false true = refl
and-false false = refl

reroute-writes :
    (delivery : NewDelivery) (job : OutboundJob)
    → job.last_result ≡ rerouted_text
    → control_writes job rerouted_text (reroute_update delivery job) ≡ false
unfolding control_writes state_code
reroute-writes delivery job again =
    let (state, result) = reroute_update-same delivery job in
    let same : same_state job.state job.state ≡ true = (==_iff _ _).1 refl in
    rw (state, result, again, same) (and-false _)

-- A job whose last result is "Rerouted" already stays as it is stored, wherever it is to be sent
-- now: the answer is that of the update, and the database does not change.
pub reroute-again :
    {T : Type 0} ⦃tables : Tables T⦄ (application job_id : Text) (now : ℕ) (delivery : NewDelivery)
    (db : Db T) (job : OutboundJob)
    → query job_id db ≡ ok job
    → job.application ≡ application
    → job.last_result ≡ rerouted_text
    → reroute application job_id now delivery db
      ≡ ok (restate (reroute_update delivery job).0 job.state, db)
unfolding reroute control
reroute-again application job_id now delivery db job there owner again =
    let mine : (job.application =? application) ≡ true = (list_beq_iff _ _).1 owner in
    rw (there, mine, reroute-writes delivery job again, (reroute_update-same delivery job).0)
