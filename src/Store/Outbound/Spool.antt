-- ===== src/Store/Outbound/Spool.antt =====
-- What the operations of crates/tith-store/src/outbound.rs promise: the same operations on a spool that
-- holds jobs, not their encoded form, so that none of them decodes or meets a corrupt record.
use tith.Base.{
  ℕ, ◌≡◌, Bool, false, ◌=?◌, nat_eq, list_eq, if◌then◌else◌, List, [], ◌∷◌, get_elem?, Option, none,
  some, Result, ok, ok_or, ensure, ◌>>=◌, ◌>>◌, All,
}
use tith.Store.Types.{
  Text, JobState, DeliveryRecord, OutboundJob, DeliveryClaim, DeliveryOutcome, ControlOutcome,
  StoreError, corrupt_record, not_found, stuck,
}
use tith.Store.JobCodec.{encode_job}
use tith.Store.JobCodec.RoundTrip.{IsStorable}
use tith.Store.Table.{Entries, find, put, encoded, Tables, Db}
use tith.Store.Events.{next_event, encode_event}
use tith.Store.Outbound.{settle_job, claim_job, finish_job}
use tith.Store.Outbound.Control.{Controlled, control_writes, restate}
use tith.Store.Outbound.Sound.{IsSound}
use tith.Store.Outbound.Operations.{Selected, choose}

pub record Spool : Type 0 where
  pub jobs : Entries OutboundJob
  pub items : Entries (List ℕ)
  pub events : Entries (List ℕ)

unfoldable pub look : Text → Spool → Result StoreError OutboundJob
look job_id spool = ok_or not_found (find job_id spool.jobs)

unfoldable pub put_event :
    OutboundJob → JobState → Entries (List ℕ) → Result StoreError (Entries (List ℕ))
unfolding next_event
put_event job previous events = next_event job (some previous) events >>= λ event.
    ok (put event.event_id (encode_event (job.application, false, event)) events)

unfoldable pub put_back : Text → OutboundJob → JobState → Spool → Result StoreError Spool
unfolding put_event
put_back key job previous spool = put_event job previous spool.events >>= λ events.
    ok (record spool { jobs = put key job spool.jobs; events = events })

unfoldable pub control :
    Text
    → Text
    → ℕ
    → Text
    → (OutboundJob → Controlled)
    → Spool
    → Result StoreError (ControlOutcome × Spool)
unfolding look control_writes settle_job put_back
control application job_id now result update spool = look job_id spool >>= λ job.
    ensure (job.application =? application) not_found
    >> (let controlled = update job in
        let stored : OutboundJob = record (settle_job now controlled.1) { last_result = result } in
        if control_writes job result controlled
        then put_back job_id stored job.state spool
          >>= (λ spool'. ok (restate controlled.0 stored.state, spool'))
        else ok (restate controlled.0 controlled.1.state, spool))

unfoldable pub select :
    ℕ → (DeliveryRecord → Bool) → Entries OutboundJob → Option Selected → Option Selected
unfolding choose
select now matches_selector [] selected = selected
select now matches_selector ((key, job) ∷ entries) selected =
    select now matches_selector entries (choose now matches_selector job 0 job.deliveries selected)

unfoldable pub claim_selected :
    ℕ → Text → Selected → Spool → Result StoreError (Option DeliveryClaim × Spool)
unfolding claim_job put_back
claim_selected now token selected spool =
    claim_job now token selected.position selected.job >>= λ job.
    ok_or corrupt_record (find job.job_id spool.items) >>= λ item.
    put_back job.job_id job selected.job.state spool >>= λ spool'.
    ok_or stuck (get_elem? job.deliveries selected.position) >>= λ delivery. ok (
      some (record {
        job_id = job.job_id;
        delivery_index = delivery.index;
        worker_token = token;
        item = item;
        delivery = delivery;
      }),
      spool',
    )

abbrev pub claim_any :
    ℕ → Text → Option Selected → Spool → Result StoreError (Option DeliveryClaim × Spool)
claim_any now token none spool = ok (none, spool)
claim_any now token (some chosen) spool = claim_selected now token chosen spool

unfoldable pub claim_matching :
    ℕ → (DeliveryRecord → Bool) → Text → Spool → Result StoreError (Option DeliveryClaim × Spool)
unfolding select claim_selected
claim_matching now matches_selector token spool =
    claim_any now token (select now matches_selector spool.jobs none) spool

unfoldable pub finish_delivery :
    Text → ℕ → Text → ℕ → DeliveryOutcome → Spool → Result StoreError (JobState × Spool)
unfolding look finish_job put_back
finish_delivery job_id index token now outcome spool = look job_id spool >>= λ job.
    finish_job index token now outcome job >>= λ finished.
    put_back job_id finished job.state spool >>= λ spool'. ok (finished.state, spool')

-- A job that is kept under its own name, sound and in a form that can be stored.
pub record IsKept (entry : Text × OutboundJob) : Type 0 where
  pub named : entry.0 ≡ entry.1.job_id
  pub storable : IsStorable entry.1
  pub sound : IsSound entry.1

-- The database holds the encoded form of a spool of such jobs.
pub record Represents {T : Type 0} ⦃tables : Tables T⦄ (db : Db T) (spool : Spool) : Type 0 where
  pub jobs : tables.iter db.jobs ≡ encoded encode_job spool.jobs
  pub items : tables.iter db.items ≡ spool.items
  pub events : tables.iter db.events ≡ spool.events
  pub kept : All IsKept spool.jobs
