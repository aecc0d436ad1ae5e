-- ===== src/Store/Outbound/Reported.antt =====
-- crates/tith-store/src/outbound.rs: a claim, the end of a delivery and a recovery leave a job that its
-- encoding can hold.
use tith.Base.{
  ℕ, suc, ◌+◌, ◌^◌, ◌≡◌, refl, ap, subst, arith, Bool-cases, not, ltb, ◌||◌, ◌=?◌, list_eq, nat_eq,
  option_eq, List, [], ◌∷◌, All, length, none, some, ok, inl, inr, >>=-eq-ok, ok-injective,
}
use tith.Base.Options.{some-injective}
use tith.Wire.Integer.{IsU64}
use tith.Store.Types.{Text, JobState, DeliveryRecord, OutboundJob, DeliveryOutcome}
use tith.Store.JobCodec.Parts.{IsStorableCopy}
use tith.Store.JobCodec.RoundTrip.{IsStorable}
use tith.Store.Bytes.Reading.{IsText, IsOptional}
use tith.Store.Outbound.{
  same_state, any_in, claim_copy, at_index, at_position, claim_job, finish_copy, finish_job,
  recover_copy, recover_all, recover_job, state_after, retry_after, failure_after, result_of,
}
use tith.Store.Outbound.Copies.{at_index-keeps, at_position-keeps}
use tith.Store.Outbound.Storable.{with_copies-IsStorable, settle_job-IsStorable}

-- Copies that can be stored, as a predicate on lists of a length.
abbrev StorableFrom : ℕ → ℕ → List DeliveryRecord → Type 0
StorableFrom last n copies = All IsStorableCopy copies × (length copies + n ≡ last)

storable-cons :
    (last n : ℕ) (copy : DeliveryRecord) (copies : List DeliveryRecord)
    → IsStorableCopy copy
    → StorableFrom last (n + 1) copies
    → StorableFrom last n (copy ∷ copies)
storable-cons last n copy copies here later = ((here, later.0), omega (arith, later.1))

storable-uncons :
    (last n : ℕ) (copy : DeliveryRecord) (copies : List DeliveryRecord)
    → StorableFrom last n (copy ∷ copies)
    → IsStorableCopy copy × StorableFrom last (n + 1) copies
storable-uncons last n copy copies h = (h.0.0, (h.0.1, omega (arith, h.1)))

claim_copy-IsStorable :
    (token : Text) (n : ℕ) (copy copy' : DeliveryRecord)
    → IsText token
    → claim_copy token copy ≡ ok copy'
    → IsStorableCopy copy
    → IsStorableCopy copy'
unfolding claim_copy
claim_copy-IsStorable token n copy copy' text e h =
    elim (Bool-cases (ltb (copy.attempts + 1) (2 ^ 64))) [
      | inl room ↦
          let claimed : IsStorableCopy (record copy {
            state = JobState.active;
            attempts = copy.attempts + 1;
            retry_at = none;
            worker_token = some token;
          }) =
            record {
              index = h.index;
              local_identity = h.local_identity;
              next_hop = h.next_hop;
              next_hop_key = h.next_hop_key;
              class = h.class;
              retry_at = tt;
              attempts = ground arith;
              last_result = h.last_result;
              worker_token = text;
            } in
          subst IsStorableCopy (ok-injective (rw (room, claim_copy) at e)) claimed
      | inr full ↦ let wrong = rw (full, claim_copy) at e in cc
    ]

-- What a worker reports.
abbrev pub IsStorableOutcome : DeliveryOutcome → Type 0
IsStorableOutcome (DeliveryOutcome.delivered result) = IsText result
IsStorableOutcome (DeliveryOutcome.deferred retry_at result) = IsU64 retry_at × IsText result
IsStorableOutcome (DeliveryOutcome.rejected kind result) = IsText result
IsStorableOutcome (DeliveryOutcome.failed result) = IsText result

pub result_of-IsText :
    (outcome : DeliveryOutcome) → IsStorableOutcome outcome → IsText (result_of outcome)
result_of-IsText (DeliveryOutcome.delivered result) h = h
result_of-IsText (DeliveryOutcome.deferred retry_at result) h = h.1
result_of-IsText (DeliveryOutcome.rejected kind result) h = h
result_of-IsText (DeliveryOutcome.failed result) h = h

retry_after-IsU64 :
    (outcome : DeliveryOutcome) → IsStorableOutcome outcome → IsOptional IsU64 (retry_after outcome)
retry_after-IsU64 (DeliveryOutcome.delivered result) h = tt
retry_after-IsU64 (DeliveryOutcome.deferred retry_at result) h = h.0
retry_after-IsU64 (DeliveryOutcome.rejected kind result) h = tt
retry_after-IsU64 (DeliveryOutcome.failed result) h = tt

finish_copy-IsStorable :
    (job_state : JobState) (token : Text) (outcome : DeliveryOutcome) (n : ℕ)
    (copy copy' : DeliveryRecord)
    → IsStorableOutcome outcome
    → finish_copy job_state token outcome copy ≡ ok copy'
    → IsStorableCopy copy
    → IsStorableCopy copy'
unfolding finish_copy
finish_copy-IsStorable job_state token outcome n copy copy' fine e h =
    elim (Bool-cases
      (not (same_state copy.state JobState.active) || not (copy.worker_token =? some token))) [
        | inl stale ↦ let wrong = rw (stale, finish_copy) at e in cc
        | inr held ↦
            let finished : IsStorableCopy (record copy {
              last_failure = failure_after outcome;
              state = state_after outcome;
              retry_at = retry_after outcome;
              last_result = result_of outcome;
              worker_token = none;
            }) =
              record {
                index = h.index;
                local_identity = h.local_identity;
                next_hop = h.next_hop;
                next_hop_key = h.next_hop_key;
                class = h.class;
                retry_at = retry_after-IsU64 outcome fine;
                attempts = h.attempts;
                last_result = result_of-IsText outcome fine;
                worker_token = tt;
              } in
            subst IsStorableCopy (ok-injective (rw (held, finish_copy) at e)) finished
      ]

recover_all-IsStorable :
    (retry_at : ℕ) (result : Text) (copies : List DeliveryRecord)
    → IsU64 retry_at
    → IsText result
    → All IsStorableCopy copies
    → All IsStorableCopy (recover_all retry_at result copies)
unfolding recover_copy
recover_all-IsStorable retry_at result [] time text h = tt
recover_all-IsStorable retry_at result (copy ∷ copies) time text h =
    let rest = recover_all-IsStorable retry_at result copies time text h.1 in
    elim (Bool-cases (same_state copy.state JobState.active)) [
      | inl e ↦ rw e (
        record {
          index = h.0.index;
          local_identity = h.0.local_identity;
          next_hop = h.0.next_hop;
          next_hop_key = h.0.next_hop_key;
          class = h.0.class;
          retry_at = time;
          attempts = h.0.attempts;
          last_result = text;
          worker_token = tt;
        },
        rest,
      )
      | inr e ↦ rw e (h.0, rest)
    ]

length-recover_all :
    (retry_at : ℕ) (result : Text) (copies : List DeliveryRecord)
    → length (recover_all retry_at result copies) ≡ length copies
length-recover_all retry_at result [] = refl
length-recover_all retry_at result (copy ∷ copies) =
    ap suc (length-recover_all retry_at result copies)

pub claim_job-IsStorable :
    (now : ℕ) (token : Text) (position : ℕ) (job job' : OutboundJob)
    → IsU64 now
    → IsText token
    → IsStorable job
    → claim_job now token position job ≡ ok job'
    → IsStorable job'
unfolding claim_job
claim_job-IsStorable now token position job job' time text h e =
    let (copies, made, last) =
      >>=-eq-ok (at_position position (claim_copy token) job.deliveries) _ e in
    let (storable, same) =
      at_position-keeps (StorableFrom (length job.deliveries)) (λ _. IsStorableCopy)
        (storable-cons _) (storable-uncons _) (claim_copy token) position 0 job.deliveries copies
        (λ m copy copy' there. claim_copy-IsStorable token m copy copy' text) made
        (h.deliveries, omega arith) in
    subst IsStorable (ok-injective last) (
      settle_job-IsStorable now job.last_result (record job { deliveries = copies }) time
        h.last_result (with_copies-IsStorable job copies h (omega (arith, same)) storable))

pub finish_job-IsStorable :
    (index : ℕ) (token : Text) (now : ℕ) (outcome : DeliveryOutcome) (job job' : OutboundJob)
    → IsU64 now
    → IsStorableOutcome outcome
    → IsStorable job
    → finish_job index token now outcome job ≡ ok job'
    → IsStorable job'
unfolding finish_job
finish_job-IsStorable index token now outcome job job' time fine h e =
    let (copies, made, last) =
      >>=-eq-ok (at_index index (finish_copy job.state token outcome) job.deliveries) _ e in
    let (storable, same) =
      at_index-keeps (StorableFrom (length job.deliveries)) (λ _. IsStorableCopy) (storable-cons _)
        (storable-uncons _) (finish_copy job.state token outcome) index 0 job.deliveries copies
        (λ m copy copy'. finish_copy-IsStorable job.state token outcome m copy copy' fine) made
        (h.deliveries, omega arith) in
    subst IsStorable (ok-injective last) (
      settle_job-IsStorable now (result_of outcome) (record job { deliveries = copies }) time
        (result_of-IsText outcome fine)
        (with_copies-IsStorable job copies h (omega (arith, same)) storable))

pub recover_job-IsStorable :
    (now retry_at : ℕ) (result : Text) (job job' : OutboundJob)
    → IsU64 now
    → IsU64 retry_at
    → IsText result
    → IsStorable job
    → recover_job now retry_at result job ≡ some job'
    → IsStorable job'
unfolding recover_job
recover_job-IsStorable now retry_at result job job' time time' text h e =
    elim (Bool-cases (any_in JobState.active job.deliveries)) [
      | inl some_active ↦
          let copies = recover_all retry_at result job.deliveries in
          subst IsStorable (some-injective (rw (some_active, recover_job) at e)) (
            settle_job-IsStorable now result (record job { deliveries = copies }) time text
              (with_copies-IsStorable job copies h
                (length-recover_all retry_at result job.deliveries)
                (recover_all-IsStorable retry_at result job.deliveries time' text h.deliveries)))
      | inr idle ↦ let wrong = rw (idle, recover_job) at e in cc
    ]
