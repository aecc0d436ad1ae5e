-- ===== src/Store/Outbound/Controls.antt =====
-- crates/tith-store/src/outbound.rs: `cancel`, `retry` and `reroute` do what their specification does.
use tith.Base.{ℕ, ◌≡◌, refl, ◌∙◌, Bool-cases, ◌=?◌, nat_eq, list_eq, ensure, inl, inr}
use tith.Wire.Integer.{IsU64}
use tith.Store.Types.{Text, NewDelivery, OutboundJob, not_found}
use tith.Store.JobCodec.RoundTrip.{IsStorable}
use tith.Store.Bytes.Reading.{IsText}
use tith.Store.Table.{Tables, Db}
use tith.Store.Outbound.{settle_job}
use tith.Store.Outbound.Control.{
  Controlled, control_writes, cancelled_text, retry_text, rerouted_text, cancel_update,
  retry_update, reroute_update,
}
use tith.Store.Outbound.Sound.{
  IsSound, KeepsCopies, settle_job-IsSound, cancel_update-KeepsCopies, retry_update-KeepsCopies,
  reroute_update-KeepsCopies, cancel_update-job_id, retry_update-job_id, reroute_update-job_id,
}
use tith.Store.Outbound.Storable.{
  settle_job-IsStorable, IsStorableDelivery, cancel_update-IsStorable, retry_update-IsStorable,
  reroute_update-IsStorable, cancelled_text-IsText, retry_text-IsText, rerouted_text-IsText,
}
use tith.Store.Outbound.Operations.{control, cancel, retry, reroute}
use tith.Store.Outbound.Spool
use tith.Store.Outbound.Spool.{Spool, look, put_event, put_back, IsKept, Represents}
use tith.Store.Outbound.Refines.{Agree, same->>=, Answers, query->>=, save->>=}

-- A job that `control` stores.
controlled-IsKept :
    (key : Text) (now : ℕ) (result : Text) (job job' : OutboundJob)
    → IsU64 now
    → IsText result
    → IsKept (key, job)
    → job.job_id ≡ job'.job_id
    → IsStorable job'
    → KeepsCopies job'
    → IsKept (key, record (settle_job now job') { last_result = result })
unfolding settle_job
controlled-IsKept key now result job job' time text kept same storable keeps =
    let sound = settle_job-IsSound now job' keeps.copies keeps.numbers in
    record {
      named = kept.named ∙ same;
      storable = settle_job-IsStorable now result job' time text storable;
      sound = record { copies = sound.copies; numbers = sound.numbers; state = sound.state };
    }

module _ {T : Type 0} ⦃tables : Tables T⦄ where
  control-refines :
      (application job_id : Text) (now : ℕ) (result : Text) (update : OutboundJob → Controlled)
      (db : Db T) (spool : Spool)
      → IsU64 now
      → IsText result
      → Represents db spool
      → ((job : OutboundJob) → IsStorable job → IsStorable (update job).1)
      → ((job : OutboundJob) → IsSound job → KeepsCopies (update job).1)
      → ((job : OutboundJob) → job.job_id ≡ (update job).1.job_id)
      → Agree Answers
          (control application job_id now result update db)
          (Spool.control application job_id now result update spool)
  unfolding control Spool.control
  control-refines application job_id now result update db spool time text h storable sound named =
      query->>= Answers job_id db spool _ _ h (λ job kept.
        same->>= Answers (ensure (job.application =? application) not_found) _ _ (λ owner made.
          elim (Bool-cases (control_writes job result (update job))) [
            | inl writes ↦ rw writes (
                save->>= job_id _ job.state db spool _ h (
                  controlled-IsKept job_id now result job (update job).1 time text kept (named job)
                    (storable job kept.storable) (sound job kept.sound)))
            | inr keeps ↦ rw keeps (refl, h)
          ]))

  -- The three operations of an application: each is `control` of the specification with its update.
  pub controls-refine :
      (application job_id : Text) (now : ℕ) (delivery : NewDelivery) (db : Db T) (spool : Spool)
      → IsU64 now
      → IsStorableDelivery delivery
      → Represents db spool
      → Agree Answers
          (cancel application job_id now db)
          (Spool.control application job_id now cancelled_text cancel_update spool)
        × Agree Answers
            (retry application job_id now db)
            (Spool.control application job_id now retry_text retry_update spool)
        × Agree Answers
            (reroute application job_id now delivery db)
            (Spool.control application job_id now rerouted_text (reroute_update delivery) spool)
  unfolding cancel retry reroute
  controls-refine application job_id now delivery db spool time fine h = (
    control-refines application job_id now cancelled_text cancel_update db spool time
        cancelled_text-IsText h cancel_update-IsStorable cancel_update-KeepsCopies
        cancel_update-job_id,
    control-refines application job_id now retry_text retry_update db spool time retry_text-IsText h
        retry_update-IsStorable retry_update-KeepsCopies retry_update-job_id,
    control-refines application job_id now rerouted_text (reroute_update delivery) db spool time
        rerouted_text-IsText h (λ job. reroute_update-IsStorable delivery job fine)
        (reroute_update-KeepsCopies delivery) (reroute_update-job_id delivery),
  )
