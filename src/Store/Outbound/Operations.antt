-- ===== src/Store/Outbound/Operations.antt =====
-- crates/tith-store/src/outbound.rs: the operations of `OutboundStore`. An operation is one
-- transaction: it returns the database as `commit` leaves it, and an error leaves the database as it
-- was. What the random source of the system gives, a worker's token, is an argument.
use tith.Base.{
  ℕ, suc, Bool, true, false, ltb, ◌==◌, ◌&&◌, ◌||◌, ◌=?◌, nat_eq, list_eq, if◌then◌else◌, List, [],
  ◌∷◌, length, get_elem?, Option, none, some, Result, ok, err, ok_or, ensure, ◌>>=◌, ◌>>◌,
}
use tith.Store.Types.{
  Text, JobState, DeliveryMode, NewDelivery, DeliveryRecord, OutboundJob, DeliveryClaim,
  DeliveryOutcome, OutboundEvent, ControlOutcome, StoreError, corrupt_record, not_found, stuck,
}
use tith.Store.JobCodec.{encode_job, decode_job}
use tith.Store.Table.{Entries, less, Tables, Db}
use tith.Store.Events.{append_event, encode_event, decode_event}
use tith.Store.Outbound.{settle_job, eligible, claim_job, finish_job, recover_job}
use tith.Store.Outbound.Control.{
  Controlled, cancelled_text, retry_text, rerouted_text, cancel_update, retry_update,
  reroute_update, control_writes, restate,
}

-- The place of a copy among those that may be claimed: `(created, job_id, index)`.
abbrev pub Place : Type 0
Place = ℕ × Text × ℕ

abbrev pub before : Place → Place → Bool
before (created, job_id, index) (created', job_id', index') =
    ltb created created'
    || created == created' && (less job_id job_id' || job_id =? job_id' && ltb index index')

-- `selected`, with the copy at its position.
pub record Selected : Type 0 where
  pub job : OutboundJob
  pub position : ℕ
  pub copy : DeliveryRecord

abbrev pub place : Selected → Place
place selected = (selected.job.created, selected.job.job_id, selected.copy.index)

abbrev pub earlier : Selected → Option Selected → Bool
earlier candidate none = true
earlier candidate (some selected) = before (place candidate) (place selected)

-- A round of the inner loop of `claim_matching`.
unfoldable pub consider : ℕ → (DeliveryRecord → Bool) → Selected → Option Selected → Option Selected
unfolding eligible
consider now matches_selector candidate selected =
    if eligible now matches_selector candidate.copy && earlier candidate selected
    then some candidate
    else selected

unfoldable pub choose :
    ℕ
    → (DeliveryRecord → Bool)
    → OutboundJob
    → ℕ
    → List DeliveryRecord
    → Option Selected
    → Option Selected
choose now matches_selector job position [] selected = selected
choose now matches_selector job position (copy ∷ copies) selected =
    choose now matches_selector job (suc position) copies (
      consider now matches_selector (record { job = job; position = position; copy = copy })
        selected)

unfoldable pub select :
    ℕ
    → (DeliveryRecord → Bool)
    → Entries (List ℕ)
    → Option Selected
    → Result StoreError (Option Selected)
unfolding choose decode_job
select now matches_selector [] selected = ok selected
select now matches_selector ((key, value) ∷ entries) selected = decode_job value >>= λ job.
    select now matches_selector entries (choose now matches_selector job 0 job.deliveries selected)

-- The jobs that `recover_active` changes, with the states they had.
abbrev pub with_recovered :
    OutboundJob → Option OutboundJob → List (OutboundJob × JobState) → List (OutboundJob × JobState)
with_recovered job none changed = changed
with_recovered job (some job') changed = (job', job.state) ∷ changed

unfoldable pub recovered :
    ℕ → ℕ → Text → Entries (List ℕ) → Result StoreError (List (OutboundJob × JobState))
unfolding recover_job decode_job
recovered now retry_at result [] = ok []
recovered now retry_at result ((key, value) ∷ entries) = decode_job value >>= λ job.
    recovered now retry_at result entries >>= λ changed.
    ok (with_recovered job (recover_job now retry_at result job) changed)

-- `output.sort_by(..)`, which is stable, by the time and the identifier of an event.
abbrev event_after : OutboundEvent → OutboundEvent → Bool
event_after left right =
    ltb right.changed left.changed
    || left.changed == right.changed && less right.event_id left.event_id

abbrev insert_event : OutboundEvent → List OutboundEvent → List OutboundEvent
insert_event event [] = event ∷ []
insert_event event (first ∷ events) =
    let rest = insert_event event events in
    if event_after event first then first ∷ rest else event ∷ first ∷ events

abbrev sort_events : List OutboundEvent → List OutboundEvent
sort_events [] = []
sort_events (event ∷ events) = insert_event event (sort_events events)

abbrev unacknowledged : Text → Entries (List ℕ) → Result StoreError (List OutboundEvent)
unacknowledged application [] = ok []
unacknowledged application ((key, value) ∷ entries) = decode_event value >>= λ entry.
    unacknowledged application entries >>= λ output. ok (
      if entry.0 =? application && (if entry.1 then false else true)
      then entry.2 ∷ output
      else output)

abbrev is_sent : DeliveryMode → Bool
is_sent DeliveryMode.active = true
is_sent DeliveryMode.passive = false

module _ {T : Type 0} ⦃tables : Tables T⦄ where
  unfoldable pub query : Text → Db T → Result StoreError OutboundJob
  unfolding decode_job
  query job_id db = ok_or not_found (tables.get job_id db.jobs) >>= decode_job

  unfoldable pub query_for : Text → Text → Db T → Result StoreError OutboundJob
  unfolding query
  query_for application job_id db =
      query job_id db >>= λ job. if job.application =? application then ok job else err not_found

  unfoldable pub item : Text → Db T → Result StoreError (List ℕ)
  item job_id db = ok_or not_found (tables.get job_id db.items)

  unfoldable pub events : Text → Db T → Result StoreError (List OutboundEvent)
  unfolding decode_event
  events application db =
      unacknowledged application (tables.iter db.events) >>= λ output. ok (sort_events output)

  unfoldable pub acknowledge_event : Text → Text → Db T → Result StoreError (Db T)
  unfolding decode_event encode_event
  acknowledge_event application event_id db =
      ok_or not_found (tables.get event_id db.events) >>= decode_event >>= λ entry.
      if entry.0 =? application
      then ok (record db {
        events = tables.insert event_id (encode_event (entry.0, true, entry.2)) db.events;
      })
      else err not_found

  -- The new form of a job, and the event of its change.
  unfoldable pub save : Text → OutboundJob → JobState → Db T → Result StoreError (Db T)
  unfolding encode_job append_event
  save key job previous db = append_event job (some previous) db.events >>= λ logged.
      ok (record db { jobs = tables.insert key (encode_job job) db.jobs; events = logged })

  unfoldable pub control :
      Text
      → Text
      → ℕ
      → Text
      → (OutboundJob → Controlled)
      → Db T
      → Result StoreError (ControlOutcome × Db T)
  unfolding query control_writes settle_job save
  control application job_id now result update db = query job_id db >>= λ job.
      ensure (job.application =? application) not_found
      >> (let controlled = update job in
          let stored : OutboundJob = record (settle_job now controlled.1) {
            last_result = result;
          } in
          if control_writes job result controlled
          then save job_id stored job.state db
            >>= (λ db'. ok (restate controlled.0 stored.state, db'))
          else ok (restate controlled.0 controlled.1.state, db))

  unfoldable pub cancel : Text → Text → ℕ → Db T → Result StoreError (ControlOutcome × Db T)
  unfolding control cancel_update
  cancel application job_id now db = control application job_id now cancelled_text cancel_update db

  unfoldable pub retry : Text → Text → ℕ → Db T → Result StoreError (ControlOutcome × Db T)
  unfolding control retry_update
  retry application job_id now db = control application job_id now retry_text retry_update db

  unfoldable pub reroute :
      Text → Text → ℕ → NewDelivery → Db T → Result StoreError (ControlOutcome × Db T)
  unfolding control reroute_update
  reroute application job_id now delivery db =
      control application job_id now rerouted_text (reroute_update delivery) db

  -- What follows the selection: the claim is stored, and the worker is told of it.
  unfoldable pub claim_selected :
      ℕ → Text → Selected → Db T → Result StoreError (Option DeliveryClaim × Db T)
  unfolding claim_job save
  claim_selected now token selected db =
      claim_job now token selected.position selected.job >>= λ job.
      ok_or corrupt_record (tables.get job.job_id db.items) >>= λ item.
      save job.job_id job selected.job.state db >>= λ db'.
      ok_or stuck (get_elem? job.deliveries selected.position) >>= λ delivery. ok (
        some (record {
          job_id = job.job_id;
          delivery_index = delivery.index;
          worker_token = token;
          item = item;
          delivery = delivery;
        }),
        db',
      )

  unfoldable pub claim_matching :
      ℕ → (DeliveryRecord → Bool) → Text → Db T → Result StoreError (Option DeliveryClaim × Db T)
  unfolding select claim_selected
  claim_matching now matches_selector token db =
      select now matches_selector (tables.iter db.jobs) none >>= λ selected. elim selected [
        | none ↦ ok (none, db)
        | some chosen ↦ claim_selected now token chosen db
      ]

  unfoldable pub claim_scheduled :
      ℕ → (DeliveryRecord → Bool) → Text → Db T → Result StoreError (Option DeliveryClaim × Db T)
  unfolding claim_matching
  claim_scheduled now selects token db =
      claim_matching now (λ copy. is_sent copy.mode && selects copy) token db

  unfoldable pub finish_delivery :
      Text → ℕ → Text → ℕ → DeliveryOutcome → Db T → Result StoreError (JobState × Db T)
  unfolding query finish_job save
  finish_delivery job_id index token now outcome db = query job_id db >>= λ job.
      finish_job index token now outcome job >>= λ finished.
      save job_id finished job.state db >>= λ db'. ok (finished.state, db')

  unfoldable pub insert_all : List (OutboundJob × JobState) → T → T
  unfolding encode_job
  insert_all [] jobs = jobs
  insert_all ((job, previous) ∷ changed) jobs =
      insert_all changed (tables.insert job.job_id (encode_job job) jobs)

  unfoldable pub log_all : List (OutboundJob × JobState) → T → Result StoreError T
  unfolding append_event
  log_all [] logged = ok logged
  log_all ((job, previous) ∷ changed) logged =
      append_event job (some previous) logged >>= log_all changed

  unfoldable pub recover_active : ℕ → ℕ → Text → Db T → Result StoreError (ℕ × Db T)
  unfolding recovered insert_all log_all
  recover_active now retry_at result db =
      recovered now retry_at result (tables.iter db.jobs) >>= λ changed.
      log_all changed db.events >>= λ logged.
      ok (length changed, record db { jobs = insert_all changed db.jobs; events = logged })
