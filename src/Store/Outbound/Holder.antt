-- ===== src/Store/Outbound/Holder.antt =====
-- crates/tith-store/src/outbound.rs: who has claimed a copy, and nobody else, can report on it.
use tith.Base.{
  ℕ, zero, suc, ◌+◌, ◌^◌, ◌≤◌, ◌≡◌, ◌≢◌, refl, sym, ap, ◌∙◌, subst, arith, true, false, Bool-cases,
  ltb, ◌==◌, ==_iff, ◌=?◌, nat_eq, list_eq, option_eq, list_beq_iff, List, [], ◌∷◌, get_elem?, none,
  some, Result, ok, err, >>=-eq-ok, ok-injective, inl, inr,
}
use tith.Base.Options.{some-injective}
use tith.Store.Types.{
  Text, JobState, DeliveryRecord, OutboundJob, DeliveryOutcome, StoreError, job_stale,
}
use tith.Store.JobCodes.{state_code}
use tith.Store.Outbound.{
  same_state, claim_copy, at_index, at_position, claim_job, finish_copy, finish_job, settle_job,
  failure_after, state_after, retry_after, result_of,
}
use tith.Store.Outbound.Sound.{IsNumbered, IsSound}
use tith.Store.Outbound.Changes.{IsWaiting, claim_job-IsSound}

index-from :
    (n position : ℕ) (copies : List DeliveryRecord) (copy : DeliveryRecord)
    → IsNumbered n copies
    → get_elem? copies position ≡ some copy
    → n ≤ copy.index
index-from n position [] copy h e = cc
index-from n zero (first ∷ copies) copy h e =
    omega (arith, h.0, ap (λ c. c.index) (some-injective e))
index-from n (suc position) (first ∷ copies) copy h e =
    omega (arith, index-from (n + 1) position copies copy h.1 e)

-- A copy of a numbered list is found under its number.
at_index-position :
    (change : DeliveryRecord → Result StoreError DeliveryRecord) (n position : ℕ)
    (copies : List DeliveryRecord) (copy : DeliveryRecord)
    → IsNumbered n copies
    → get_elem? copies position ≡ some copy
    → at_index copy.index change copies ≡ at_position position change copies
at_index-position change n position [] copy h e = cc
at_index-position change n zero (first ∷ copies) copy h e =
    let same : (first.index == copy.index) ≡ true =
      (==_iff _ _).1 (ap (λ c. c.index) (some-injective e)) in
    rw same
at_index-position change n (suc position) (first ∷ copies) copy h e =
    let past : (first.index == copy.index) ≡ false =
      ground (arith, h.0, index-from (n + 1) position copies copy h.1 e) in
    rw (past, at_index-position change (n + 1) position copies copy h.1 e)

at_position-ok :
    (change : DeliveryRecord → Result StoreError DeliveryRecord) (position : ℕ)
    (copies : List DeliveryRecord) (copy copy' : DeliveryRecord)
    → get_elem? copies position ≡ some copy
    → change copy ≡ ok copy'
    → (copies' : List DeliveryRecord) × (at_position position change copies ≡ ok copies')
at_position-ok change position [] copy copy' e made = cc
at_position-ok change zero (first ∷ copies) copy copy' e made =
    let here : change first ≡ ok copy' = ap change (some-injective e) ∙ made in
    (copy' ∷ copies, rw here)
at_position-ok change (suc position) (first ∷ copies) copy copy' e made =
    let (rest, h) = at_position-ok change position copies copy copy' e made in (first ∷ rest, rw h)

at_position-err :
    (change : DeliveryRecord → Result StoreError DeliveryRecord) (position : ℕ)
    (copies : List DeliveryRecord) (copy : DeliveryRecord) (reason : StoreError)
    → get_elem? copies position ≡ some copy
    → change copy ≡ err reason
    → at_position position change copies ≡ err reason
at_position-err change position [] copy reason e made = cc
at_position-err change zero (first ∷ copies) copy reason e made =
    let here : change first ≡ err reason = ap change (some-injective e) ∙ made in rw here
at_position-err change (suc position) (first ∷ copies) copy reason e made =
    rw (at_position-err change position copies copy reason e made)

claim_copy-held :
    (token : Text) (copy copy' : DeliveryRecord)
    → claim_copy token copy ≡ ok copy'
    → (copy'.state ≡ JobState.active) × (copy'.worker_token ≡ some token)
unfolding claim_copy
claim_copy-held token copy copy' e = elim (Bool-cases (ltb (copy.attempts + 1) (2 ^ 64))) [
  | inl room ↦
      subst (λ c. (c.state ≡ JobState.active) × (c.worker_token ≡ some token))
        (ok-injective (rw (room, claim_copy) at e)) (refl, refl)
  | inr full ↦ let wrong = rw (full, claim_copy) at e in cc
]

-- The copy that has been claimed is active, and its token is the claim's.
claimed_copy :
    (token : Text) (position : ℕ) (copies copies' : List DeliveryRecord) (copy : DeliveryRecord)
    → at_position position (claim_copy token) copies ≡ ok copies'
    → get_elem? copies' position ≡ some copy
    → (copy.state ≡ JobState.active) × (copy.worker_token ≡ some token)
claimed_copy token position [] copies' copy e there = cc
claimed_copy token zero (first ∷ copies) copies' copy e there =
    let (changed, made, last) = >>=-eq-ok (claim_copy token first) _ e in
    let same : changed ≡ copy =
      some-injective (ap (λ c. get_elem? c 0) (ok-injective last) ∙ there) in
    subst (λ c. (c.state ≡ JobState.active) × (c.worker_token ≡ some token)) same
      (claim_copy-held token first changed made)
claimed_copy token (suc position) (first ∷ copies) copies' copy e there =
    let (rest, made, last) = >>=-eq-ok (at_position position (claim_copy token) copies) _ e in
    claimed_copy token position copies rest copy made
      (ap (λ c. get_elem? c (suc position)) (ok-injective last) ∙ there)

-- What a worker that holds an active copy, and one that does not, makes of it.
finish_copy-holder :
    (job_state : JobState) (token : Text) (outcome : DeliveryOutcome) (copy : DeliveryRecord)
    → copy.state ≡ JobState.active
    → copy.worker_token ≡ some token
    → (copy' : DeliveryRecord) × (finish_copy job_state token outcome copy ≡ ok copy')
unfolding finish_copy state_code
finish_copy-holder job_state token outcome copy active held =
    let same : (token =? token) ≡ true = (list_beq_iff token token).1 refl in
    (
      record copy {
        last_failure = failure_after outcome;
        state = state_after outcome;
        retry_at = retry_after outcome;
        last_result = result_of outcome;
        worker_token = none;
      },
      rw (active, held, same),
    )

finish_copy-other :
    (job_state : JobState) (token other : Text) (outcome : DeliveryOutcome) (copy : DeliveryRecord)
    → copy.worker_token ≡ some token
    → other ≢ token
    → finish_copy job_state other outcome copy ≡ err (job_stale job_state)
unfolding finish_copy state_code
finish_copy-other job_state token other outcome copy held differs =
    elim (Bool-cases (token =? other)) [
      | inl same ↦ absurd (differs (sym ((list_beq_iff token other).0 same)))
      | inr differ ↦ elim (Bool-cases (same_state copy.state JobState.active)) [
        | inl active ↦ rw (active, held, differ)
        | inr idle ↦ rw idle
      ]
    ]

module _ (now : ℕ) (token : Text) (position : ℕ) (job job' : OutboundJob) (copy : DeliveryRecord)
    (sound : IsSound job)
    (waits : (c : DeliveryRecord) → get_elem? job.deliveries position ≡ some c → IsWaiting c)
    (claimed : claim_job now token position job ≡ ok job')
    (there : get_elem? job'.deliveries position ≡ some copy) where
  held : (copy.state ≡ JobState.active) × (copy.worker_token ≡ some token)
  held =
      unfold claim_job settle_job in
      let (copies, made, last) =
        >>=-eq-ok (at_position position (claim_copy token) job.deliveries) _ claimed in
      claimed_copy token position job.deliveries copies copy made
        (ap (λ j. get_elem? j.deliveries position) (ok-injective last) ∙ there)

  found :
      (change : DeliveryRecord → Result StoreError DeliveryRecord)
      → at_index copy.index change job'.deliveries ≡ at_position position change job'.deliveries
  found change =
      at_index-position change 1 position job'.deliveries copy
        (claim_job-IsSound now token position job job' sound waits claimed).numbers there

  -- Whatever the outcome that the holder reports of the copy it has claimed, the job takes it.
  pub claim_job-finish_job :
      (now' : ℕ) (outcome : DeliveryOutcome)
      → (done : OutboundJob) × (finish_job copy.index token now' outcome job' ≡ ok done)
  unfolding finish_job
  claim_job-finish_job now' outcome =
      let (copy', made) = finish_copy-holder job'.state token outcome copy held.0 held.1 in
      let change = finish_copy job'.state token outcome in
      let (copies, changed) =
        at_position-ok change position job'.deliveries copy copy' there made in
      (
        settle_job now' (record job' { deliveries = copies; last_result = result_of outcome }),
        rw (found change, changed),
      )

  -- With another token than the claim's nothing can be reported of the copy.
  pub claim_job-finish_job_stale :
      (other : Text) (now' : ℕ) (outcome : DeliveryOutcome)
      → other ≢ token
      → finish_job copy.index other now' outcome job' ≡ err (job_stale job'.state)
  unfolding finish_job
  claim_job-finish_job_stale other now' outcome differs =
      let change = finish_copy job'.state other outcome in
      rw (
        found change,
        at_position-err change position job'.deliveries copy (job_stale job'.state) there
            (finish_copy-other job'.state token other outcome copy held.1 differs),
      )
