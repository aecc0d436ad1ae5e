-- ===== src/Store/Outbound/Runs.antt =====
-- The operations of the outbound store run, and the theorems applied, at a spool of two jobs.
use tith.Base.{
  ℕ, ◌≡◌, refl, arith, Bool, true, false, List, [], ◌∷◌, none, some, ok, err, get_elem?, get_or,
  subst, ap,
}
use tith.Base.Options.{some-injective}
use tith.Wire.Cursor.{is_utf8}
use tith.Store.Types.{Text, JobState, DeliveryRecord, OutboundJob, DeliveryOutcome, job_stale}
use tith.Store.JobCodec.{encode_job, decode_job}
use tith.Store.JobCodes.{state_code}
use tith.Store.JobCodec.RoundTrip.{decode-encode_job}
use tith.Store.Table.{Entries, find, put}
use tith.Store.Events.{
  append_event, encode_event, number_after, parse_u64, parse_digits, is_digit, decimal_from,
}
use tith.Store.Events.Log.{append_event-keeps}
use tith.Store.Outbound.{eligible, any_in, claim_job, finish_job, recover_job}
use tith.Store.Outbound.Control.{
  cancelled_text, retry_text, rerouted_text, cancel_update, retry_update, reroute_update,
}
use tith.Store.Outbound.Sound.{IsSound}
use tith.Store.Outbound.Changes.{IsWaiting, recover_job-idle}
use tith.Store.Outbound.Operations.{
  choose, consider, cancel, retry, reroute, finish_delivery, claim_matching,
}
use tith.Store.Outbound.Spool
use tith.Store.Outbound.Spool.{Spool, IsKept, Represents}
use tith.Store.Outbound.Refines.{Agree, Answers, finish_delivery-refines}
use tith.Store.Outbound.Controls.{controls-refine}
use tith.Store.Outbound.Claims.{claim_matching-refines}
use tith.Store.Outbound.Holder.{claim_job-finish_job, claim_job-finish_job_stale}
use tith.Store.Outbound.Sample.{
  entries_tables, waiting, sent, first, second, spool, db, delivery, waiting-IsStorable,
  second-IsStorable, first-IsSound, second-IsSound, db-Represents,
}

decode-encode_job_example : decode_job (encode_job second) ≡ ok second
decode-encode_job_example = decode-encode_job second second-IsStorable

abbrev outcome : DeliveryOutcome
outcome = DeliveryOutcome.deferred 90 (111 ∷ [])

finish_delivery-refines_example :
    Agree Answers
      (finish_delivery second.job_id 1 (87 ∷ []) 60 outcome db)
      (Spool.finish_delivery second.job_id 1 (87 ∷ []) 60 outcome spool)
finish_delivery-refines_example =
    finish_delivery-refines second.job_id 1 (87 ∷ []) 60 outcome db spool (omega arith)
      (omega arith, unfold is_utf8 in (refl, omega arith)) db-Represents

controls-refine_example :
    Agree Answers
      (cancel first.application first.job_id 60 db)
      (Spool.control first.application first.job_id 60 cancelled_text cancel_update spool)
    × Agree Answers
        (retry first.application first.job_id 60 db)
        (Spool.control first.application first.job_id 60 retry_text retry_update spool)
    × Agree Answers (reroute first.application first.job_id 60 delivery db) (
        Spool.control first.application first.job_id 60 rerouted_text
          (reroute_update delivery)
          spool)
controls-refine_example =
    controls-refine first.application first.job_id 60 delivery db spool (omega arith)
      (record {
        local_identity = waiting-IsStorable.local_identity;
        next_hop = unfold is_utf8 in (refl, omega arith);
        class = waiting-IsStorable.class;
      })
      db-Represents

abbrev any_copy : DeliveryRecord → Bool
any_copy copy = true

claim_matching-refines_example :
    Agree Answers
      (claim_matching 60 any_copy (88 ∷ []) db)
      (Spool.claim_matching 60 any_copy (88 ∷ []) spool)
claim_matching-refines_example =
    claim_matching-refines 60 any_copy (88 ∷ []) db spool (omega arith)
      (unfold is_utf8 in (refl, omega arith)) db-Represents

-- The queued job is claimed, not the one that is active.
select_test :
    Spool.select 60 any_copy spool.jobs none
    ≡ some (record { job = first; position = 0; copy = waiting })
unfolding Spool.select choose consider eligible state_code
select_test = refl

abbrev token : Text
token = 88 ∷ []

abbrev claimed_copy : DeliveryRecord
claimed_copy = record waiting { state = JobState.active; attempts = 1; worker_token = some token }

abbrev claimed : OutboundJob
claimed = record first { state = JobState.active; changed = 60; deliveries = claimed_copy ∷ [] }

first-waits : (copy : DeliveryRecord) → get_elem? first.deliveries 0 ≡ some copy → IsWaiting copy
first-waits copy e = subst IsWaiting (some-injective e) (unfold state_code in refl)

first-claimed : claim_job 60 token 0 first ≡ ok claimed
unfolding claim_job
first-claimed = refl

claim_job-finish_job_example :
    (done : OutboundJob) × (finish_job 1 token 70 outcome claimed ≡ ok done)
claim_job-finish_job_example =
    claim_job-finish_job 60 token 0 first claimed claimed_copy first-IsSound first-waits
      first-claimed refl 70 outcome

claim_job-finish_job_stale_example :
    finish_job 1 (89 ∷ []) 70 outcome claimed ≡ err (job_stale JobState.active)
claim_job-finish_job_stale_example =
    claim_job-finish_job_stale 60 token 0 first claimed claimed_copy first-IsSound first-waits
      first-claimed refl (89 ∷ []) 70 outcome (λ e. omega (arith, ap (λ xs. get_or xs 0 0) e))

abbrev recovered_job : OutboundJob
recovered_job = record second {
  state = JobState.deferred;
  changed = 80;
  deliveries =
      record sent {
        state = JobState.deferred;
        retry_at = some 90;
        last_result = 114 ∷ [];
        worker_token = none;
      }
      ∷ [];
  last_result = 114 ∷ [];
}

recover_job-idle_example :
    IsSound recovered_job × (any_in JobState.active recovered_job.deliveries ≡ false)
recover_job-idle_example =
    recover_job-idle 80 90 (114 ∷ []) second recovered_job second-IsSound
      (unfold recover_job in refl)

-- "J1:1" and "J1:2".
abbrev event_1 : Text
event_1 = 74 ∷ 49 ∷ 58 ∷ 49 ∷ []

abbrev event_2 : Text
event_2 = 74 ∷ 49 ∷ 58 ∷ 50 ∷ []

abbrev logged : Entries (List ℕ)
logged = (event_1, 7 ∷ []) ∷ []

abbrev logged_again : Entries (List ℕ)
logged_again =
    put event_2
      (encode_event (
        first.application,
        false,
        record {
          event_id = event_2;
          job_id = first.job_id;
          previous = some JobState.active;
          current = first.state;
          changed = 5;
          last_result = [];
        },
      ))
      logged

append_event-keeps_example : find event_1 logged_again ≡ some (7 ∷ [])
unfolding append_event number_after parse_u64 parse_digits is_digit decimal_from
append_event-keeps_example =
    append_event-keeps first (some JobState.active) logged logged_again event_1 (7 ∷ []) refl refl
