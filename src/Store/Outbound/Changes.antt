-- ===== src/Store/Outbound/Changes.antt =====
-- crates/tith-store/src/outbound.rs: the operations that change one copy of a job, or the active ones,
-- keep the job sound.
use tith.Base.{
  ℕ, ◌+◌, ◌^◌, ◌≡◌, refl, ◌∙◌, subst, true, false, Bool-cases, not, ltb, ◌||◌, ◌=?◌, list_eq,
  nat_eq, option_eq, List, [], ◌∷◌, All, none, some, get_elem?, ok, inl, inr, >>=-eq-ok,
  ok-injective,
}
use tith.Base.Options.{some-injective}
use tith.Store.Types.{Text, JobState, DeliveryRecord, OutboundJob, DeliveryOutcome}
use tith.Store.JobCodes.{state_code}
use tith.Store.Outbound.{
  same_state, any_in, claim_copy, at_index, at_position, claim_job, finish_copy, finish_job,
  recover_copy, recover_all, recover_job, settle_job, state_after, retry_after, failure_after,
  result_of,
}
use tith.Store.Outbound.Sound.{IsSoundCopy, IsNumbered, IsSound, settle_job-IsSound}
use tith.Store.Outbound.Copies.{at_index-keeps, at_position-keeps}

-- Copies that are sound and numbered on from an index.
abbrev SoundFrom : ℕ → List DeliveryRecord → Type 0
SoundFrom index copies = All IsSoundCopy copies × IsNumbered index copies

abbrev SoundAt : ℕ → DeliveryRecord → Type 0
SoundAt index copy = IsSoundCopy copy × (copy.index ≡ index)

sound-cons :
    (n : ℕ) (copy : DeliveryRecord) (copies : List DeliveryRecord)
    → SoundAt n copy
    → SoundFrom (n + 1) copies
    → SoundFrom n (copy ∷ copies)
sound-cons n copy copies here later = ((here.0, later.0), (here.1, later.1))

sound-uncons :
    (n : ℕ) (copy : DeliveryRecord) (copies : List DeliveryRecord)
    → SoundFrom n (copy ∷ copies)
    → SoundAt n copy × SoundFrom (n + 1) copies
sound-uncons n copy copies h = ((h.0.0, h.1.0), (h.0.1, h.1.1))

-- A copy that waits: it has not failed, and no worker holds it.
abbrev pub IsWaiting : DeliveryRecord → Type 0
IsWaiting copy =
    (same_state copy.state JobState.queued || same_state copy.state JobState.deferred) ≡ true

waiting-not_rejected :
    (s : JobState)
    → (same_state s JobState.queued || same_state s JobState.deferred) ≡ true
    → same_state s JobState.rejected ≡ false
unfolding state_code
waiting-not_rejected JobState.queued h = refl
waiting-not_rejected JobState.active h = cc
waiting-not_rejected JobState.deferred h = refl
waiting-not_rejected JobState.delivered h = cc
waiting-not_rejected JobState.rejected h = cc
waiting-not_rejected JobState.failed h = cc
waiting-not_rejected JobState.cancelled h = cc

active-not_rejected :
    (s : JobState) → same_state s JobState.active ≡ true → same_state s JobState.rejected ≡ false
unfolding state_code
active-not_rejected JobState.queued h = cc
active-not_rejected JobState.active h = refl
active-not_rejected JobState.deferred h = cc
active-not_rejected JobState.delivered h = cc
active-not_rejected JobState.rejected h = cc
active-not_rejected JobState.failed h = cc
active-not_rejected JobState.cancelled h = cc

claim_copy-SoundAt :
    (token : Text) (n : ℕ) (copy copy' : DeliveryRecord)
    → IsWaiting copy
    → claim_copy token copy ≡ ok copy'
    → SoundAt n copy
    → SoundAt n copy'
unfolding claim_copy state_code
claim_copy-SoundAt token n copy copy' waits e (h, number) =
    elim (Bool-cases (ltb (copy.attempts + 1) (2 ^ 64))) [
      | inl room ↦ subst (SoundAt n) (ok-injective (rw (room, claim_copy) at e)) (
        record {
          token = refl;
          failure = h.failure ∙ waiting-not_rejected copy.state waits;
          retry = refl;
        },
        number,
      )
      | inr full ↦ let wrong = rw (full, claim_copy) at e in cc
    ]

finished-IsSound :
    (outcome : DeliveryOutcome) (copy : DeliveryRecord)
    → IsSoundCopy (record copy {
      last_failure = failure_after outcome;
      state = state_after outcome;
      retry_at = retry_after outcome;
      last_result = result_of outcome;
      worker_token = none;
    })
unfolding state_code
finished-IsSound (DeliveryOutcome.delivered result) copy = record {
  token = refl;
  failure = refl;
  retry = refl;
}
finished-IsSound (DeliveryOutcome.deferred retry_at result) copy = record {
  token = refl;
  failure = refl;
  retry = refl;
}
finished-IsSound (DeliveryOutcome.rejected kind result) copy = record {
  token = refl;
  failure = refl;
  retry = refl;
}
finished-IsSound (DeliveryOutcome.failed result) copy = record {
  token = refl;
  failure = refl;
  retry = refl;
}

finish_copy-SoundAt :
    (job_state : JobState) (token : Text) (outcome : DeliveryOutcome) (n : ℕ)
    (copy copy' : DeliveryRecord)
    → finish_copy job_state token outcome copy ≡ ok copy'
    → SoundAt n copy
    → SoundAt n copy'
unfolding finish_copy
finish_copy-SoundAt job_state token outcome n copy copy' e (h, number) =
    elim (Bool-cases
      (not (same_state copy.state JobState.active) || not (copy.worker_token =? some token))) [
        | inl stale ↦ let wrong = rw (stale, finish_copy) at e in cc
        | inr held ↦
            subst (SoundAt n) (ok-injective (rw (held, finish_copy) at e))
              (finished-IsSound outcome copy, number)
      ]

recover_all-SoundFrom :
    (retry_at : ℕ) (result : Text) (n : ℕ) (copies : List DeliveryRecord)
    → SoundFrom n copies
    → SoundFrom n (recover_all retry_at result copies)
unfolding recover_copy state_code
recover_all-SoundFrom retry_at result n [] h = h
recover_all-SoundFrom retry_at result n (copy ∷ copies) h =
    let rest = recover_all-SoundFrom retry_at result (n + 1) copies (h.0.1, h.1.1) in
    elim (Bool-cases (same_state copy.state JobState.active)) [
      | inl e ↦ rw e (
        (
          record {
            token = refl;
            failure = h.0.0.failure ∙ active-not_rejected copy.state e;
            retry = refl;
          },
          rest.0,
        ),
        (h.1.0, rest.1),
      )
      | inr e ↦ rw e ((h.0.0, rest.0), (h.1.0, rest.1))
    ]

-- The job after a claim of a waiting copy.
pub claim_job-IsSound :
    (now : ℕ) (token : Text) (position : ℕ) (job job' : OutboundJob)
    → IsSound job
    → ((copy : DeliveryRecord) → get_elem? job.deliveries position ≡ some copy → IsWaiting copy)
    → claim_job now token position job ≡ ok job'
    → IsSound job'
unfolding claim_job
claim_job-IsSound now token position job job' h waits e =
    let (copies, made, last) =
      >>=-eq-ok (at_position position (claim_copy token) job.deliveries) _ e in
    let (sound, numbers) =
      at_position-keeps SoundFrom SoundAt sound-cons sound-uncons (claim_copy token) position 1
        job.deliveries copies
        (λ m copy copy' there. claim_copy-SoundAt token m copy copy' (waits copy there)) made
        (h.copies, h.numbers) in
    subst IsSound (ok-injective last)
      (settle_job-IsSound now (record job { deliveries = copies }) sound numbers)

pub finish_job-IsSound :
    (index : ℕ) (token : Text) (now : ℕ) (outcome : DeliveryOutcome) (job job' : OutboundJob)
    → IsSound job
    → finish_job index token now outcome job ≡ ok job'
    → IsSound job'
unfolding finish_job
finish_job-IsSound index token now outcome job job' h e =
    let (copies, made, last) =
      >>=-eq-ok (at_index index (finish_copy job.state token outcome) job.deliveries) _ e in
    let (sound, numbers) =
      at_index-keeps SoundFrom SoundAt sound-cons sound-uncons (finish_copy job.state token outcome)
        index 1 job.deliveries copies (finish_copy-SoundAt job.state token outcome) made
        (h.copies, h.numbers) in
    subst IsSound (ok-injective last) (
      settle_job-IsSound now (record job { deliveries = copies; last_result = result_of outcome })
        sound numbers)

pub recover_job-IsSound :
    (now retry_at : ℕ) (result : Text) (job job' : OutboundJob)
    → IsSound job
    → recover_job now retry_at result job ≡ some job'
    → IsSound job'
unfolding recover_job
recover_job-IsSound now retry_at result job job' h e =
    elim (Bool-cases (any_in JobState.active job.deliveries)) [
      | inl some_active ↦
          let (sound, numbers) =
            recover_all-SoundFrom retry_at result 1 job.deliveries (h.copies, h.numbers) in
          subst IsSound (some-injective (rw (some_active, recover_job) at e)) (
            settle_job-IsSound now
              (record job {
                deliveries = recover_all retry_at result job.deliveries;
                last_result = result;
              })
              sound numbers)
      | inr idle ↦ let wrong = rw (idle, recover_job) at e in cc
    ]

recover_all-idle :
    (retry_at : ℕ) (result : Text) (copies : List DeliveryRecord)
    → any_in JobState.active (recover_all retry_at result copies) ≡ false
unfolding recover_copy state_code
recover_all-idle retry_at result [] = refl
recover_all-idle retry_at result (copy ∷ copies) =
    elim (Bool-cases (same_state copy.state JobState.active)) [
      | inl e ↦ rw (e, recover_all-idle retry_at result copies)
      | inr e ↦ rw e (rw (e, recover_all-idle retry_at result copies))
    ]

-- A recovered job is sound, and no copy of it is active any more.
pub recover_job-idle :
    (now retry_at : ℕ) (result : Text) (job job' : OutboundJob)
    → IsSound job
    → recover_job now retry_at result job ≡ some job'
    → IsSound job' × (any_in JobState.active job'.deliveries ≡ false)
unfolding recover_job settle_job
recover_job-idle now retry_at result job job' h e = (
  recover_job-IsSound now retry_at result job job' h e,
  elim (Bool-cases (any_in JobState.active job.deliveries)) [
    | inl some_active ↦
        subst (λ j. any_in JobState.active j.deliveries ≡ false)
          (some-injective (rw (some_active, recover_job) at e))
          (recover_all-idle retry_at result job.deliveries)
    | inr idle ↦ let wrong = rw (idle, recover_job) at e in cc
  ],
)
