-- ===== src/Store/Outbound/Snapshot.antt =====
-- crates/tith-store/src/poll_snapshot.rs: `claim_poll_snapshot`, which claims all that a poll may take.
-- The tokens, which the code draws from the random source of the system, are a function of the turn.
use tith.Base.{
  ℕ, zero, suc, ◌≡◌, ◌≢◌, refl, sym, ap, ap₂, ◌∙◌, Bool, ◌&&◌, ◌||◌, ◌==◌, ◌=?◌, nat_eq, list_eq,
  option_eq, any, if◌then◌else◌, List, [], ◌∷◌, length, get_elem?, Option, none, some, Result, ok,
  ok_or-bind, ◌>>=◌, >>=-eq-ok, ok-injective,
}
use tith.Wire.Address.{PublicKey}
use tith.Wire.Integer.{IsU64}
use tith.Store.Types.{
  Text, JobKind, JobState, DeliveryRecord, OutboundJob, DeliveryClaim, StoreError, corrupt_record,
  stuck,
}
use tith.Store.JobCodec.{encode_job, decode_job}
use tith.Store.JobCodes.{kind_code, state_code}
use tith.Store.JobCodec.RoundTrip.{IsStorable, decode-encode_job}
use tith.Store.Bytes.Reading.{IsText}
use tith.Store.Table.{Entries, Tables, Db}
use tith.Store.Events.{append_event}
use tith.Store.Inbound.Resolved.{get-insert}
use tith.Store.Outbound.{same_state, at_position, claim_copy, claim_job, settle_job}
use tith.Store.Outbound.Reported.{claim_job-IsStorable}
use tith.Store.Outbound.Operations.{Selected, place, before, query, save, claim_selected}

-- A copy that a poll of an identity may take.
unfoldable pub is_held : Text → Option PublicKey → DeliveryRecord → Bool
unfolding state_code
is_held next_hop next_hop_key copy =
    copy.next_hop =? next_hop
    && copy.next_hop_key =? next_hop_key
    && (same_state copy.state JobState.queued || same_state copy.state JobState.deferred)

unfoldable pub held_copies :
    Text → Option PublicKey → OutboundJob → ℕ → List DeliveryRecord → List Selected
unfolding is_held
held_copies next_hop next_hop_key job position [] = []
held_copies next_hop next_hop_key job position (copy ∷ copies) =
    let others = held_copies next_hop next_hop_key job (suc position) copies in
    if is_held next_hop next_hop_key copy
    then record { job = job; position = position; copy = copy } ∷ others
    else others

-- A `Vec` that another is pushed onto, value by value.
abbrev joined : List Selected → List Selected → List Selected
joined [] others = others
joined (selected ∷ first) others = selected ∷ joined first others

unfoldable pub held :
    Text → Option PublicKey → List JobKind → Entries (List ℕ) → Result StoreError (List Selected)
unfolding held_copies kind_code
held next_hop next_hop_key kinds [] = ok []
held next_hop next_hop_key kinds ((key, value) ∷ entries) = decode_job value >>= λ job.
    held next_hop next_hop_key kinds entries >>= λ others. ok (
      if any (λ kind. kind_code kind == kind_code job.kind) kinds
      then joined (held_copies next_hop next_hop_key job 0 job.deliveries) others
      else others)

-- `selected.sort_by(..)`, which is stable.
abbrev insert_selected : Selected → List Selected → List Selected
insert_selected selected [] = selected ∷ []
insert_selected selected (first ∷ others) =
    let rest = insert_selected selected others in
    if before (place first) (place selected) then first ∷ rest else selected ∷ first ∷ others

abbrev pub sort_selected : List Selected → List Selected
sort_selected [] = []
sort_selected (selected ∷ others) = insert_selected selected (sort_selected others)

abbrev with_claim : Option DeliveryClaim → List DeliveryClaim → List DeliveryClaim
with_claim none claims = claims
with_claim (some claim) claims = claim ∷ claims

module _ {T : Type 0} ⦃tables : Tables T⦄ where
  -- The second loop, of which a round is what `claim_matching` does with the copy it selects.
  unfoldable pub claim_each :
      ℕ → (ℕ → Text) → ℕ → List Selected → Db T → Result StoreError (List DeliveryClaim × Db T)
  claim_each now tokens turn [] db = ok ([], db)
  claim_each now tokens turn (selected ∷ others) db =
      claim_selected now (tokens turn) selected db >>= λ first.
      claim_each now tokens (suc turn) others first.1 >>= λ rest.
      ok (with_claim first.0 rest.0, rest.1)

  unfoldable pub claim_poll_snapshot :
      Text
      → Option PublicKey
      → List JobKind
      → ℕ
      → (ℕ → Text)
      → Db T
      → Result StoreError (List DeliveryClaim × Db T)
  unfolding held claim_each
  claim_poll_snapshot next_hop next_hop_key kinds now tokens db =
      held next_hop next_hop_key kinds (tables.iter db.jobs) >>= λ selected.
      claim_each now tokens 0 (sort_selected selected) db

  -- What a claim that succeeds stores, and that it is handed out.
  claim_selected-eq-ok :
      (now : ℕ) (token : Text) (selected : Selected) (db : Db T) (answer : Option DeliveryClaim)
      (db' : Db T)
      → claim_selected now token selected db ≡ ok (answer, db')
      → (job : OutboundJob) × (claim : DeliveryClaim) × (claim_job now token selected.position
            selected.job
          ≡ ok job)
        × (answer ≡ some claim)
        × (tables.insert job.job_id (encode_job job) db.jobs ≡ db'.jobs)
  unfolding claim_selected save
  claim_selected-eq-ok now token selected db answer db' h =
      let (job, claimed, rest) =
        >>=-eq-ok (claim_job now token selected.position selected.job) _ h in
      let (item, taken, rest') =
        ok_or-bind corrupt_record (tables.get job.job_id db.items) _ rest in
      let (stored, saved, rest'') = >>=-eq-ok (save job.job_id job selected.job.state db) _ rest' in
      let (delivery, there, last) =
        ok_or-bind stuck (get_elem? job.deliveries selected.position) _ rest'' in
      let (logged, event, made) =
        >>=-eq-ok (append_event job (some selected.job.state) db.events) _ saved in
      let same = ok-injective last in
      (
        job,
        record {
          job_id = job.job_id;
          delivery_index = delivery.index;
          worker_token = token;
          item = item;
          delivery = delivery;
        },
        claimed,
        sym (ap (λ r. r.0) same),
        ap (λ d. d.jobs) (ok-injective made) ∙ ap (λ r. r.1.jobs) same,
      )

-- A change at one position leaves the copies at the others.
at_position-other :
    (change : DeliveryRecord → Result StoreError DeliveryRecord) (position other : ℕ)
    (copies copies' : List DeliveryRecord)
    → at_position position change copies ≡ ok copies'
    → other ≢ position
    → get_elem? copies' other ≡ get_elem? copies other
at_position-other change position other [] copies' e differ = cc
at_position-other change zero zero (copy ∷ copies) copies' e differ = absurd (differ refl)
at_position-other change zero (suc other) (copy ∷ copies) copies' e differ =
    let (changed, made, last) = >>=-eq-ok (change copy) _ e in
    ap (λ c. get_elem? c (suc other)) (sym (ok-injective last))
at_position-other change (suc position) zero (copy ∷ copies) copies' e differ =
    let (rest, made, last) = >>=-eq-ok (at_position position change copies) _ e in
    ap (λ c. get_elem? c 0) (sym (ok-injective last))
at_position-other change (suc position) (suc other) (copy ∷ copies) copies' e differ =
    let (rest, made, last) = >>=-eq-ok (at_position position change copies) _ e in
    ap (λ c. get_elem? c (suc other)) (sym (ok-injective last))
    ∙ at_position-other change position other copies rest made (λ same. differ (ap suc same))

claim_job-other :
    (now : ℕ) (token : Text) (position other : ℕ) (job job' : OutboundJob)
    → claim_job now token position job ≡ ok job'
    → other ≢ position
    → (job.job_id ≡ job'.job_id)
      × (get_elem? job'.deliveries other ≡ get_elem? job.deliveries other)
unfolding claim_job settle_job
claim_job-other now token position other job job' e differ =
    let (copies, made, last) =
      >>=-eq-ok (at_position position (claim_copy token) job.deliveries) _ e in
    let same = sym (ok-injective last) in
    (
      ap (λ j. j.job_id) (ok-injective last),
      ap (λ j. get_elem? j.deliveries other) same
          ∙ at_position-other (claim_copy token) position other job.deliveries copies made differ,
    )

module _ {T : Type 0} ⦃tables : Tables T⦄ where
  query-stored :
      (job_id : Text) (job : OutboundJob) (jobs : T) (db : Db T)
      → db.jobs ≡ tables.insert job.job_id (encode_job job) jobs
      → job_id ≡ job.job_id
      → IsStorable job
      → query job_id db ≡ ok job
  unfolding query
  query-stored job_id job jobs db stored named fine =
      let found : tables.get job_id db.jobs ≡ some (encode_job job) =
        ap₂ tables.get named stored ∙ get-insert job.job_id (encode_job job) jobs in
      rw (found, decode-encode_job job fine)

  -- Where a snapshot takes two copies of one job, both claims are handed out, but the job is stored
  -- with the first of the two copies as it was before its claim.
  pub claim_each-overwrites :
      (now : ℕ) (tokens : ℕ → Text) (job : OutboundJob) (first second : ℕ)
      (copy copy' : DeliveryRecord) (db db' : Db T) (claims : List DeliveryClaim)
      → IsU64 now
      → IsText (tokens 1)
      → IsStorable job
      → first ≢ second
      → claim_each now tokens 0
          (record { job = job; position = first; copy = copy }
            ∷ record { job = job; position = second; copy = copy' }
            ∷ [])
          db
        ≡ ok (claims, db')
      → (length claims ≡ 2)
        × ((after : OutboundJob) × (query job.job_id db' ≡ ok after)
            × (get_elem? after.deliveries first ≡ get_elem? job.deliveries first))
  unfolding claim_each
  claim_each-overwrites now tokens job first second copy copy' db db' claims time text storable
        differ h =
      let one : Selected = record { job = job; position = first; copy = copy } in
      let two : Selected = record { job = job; position = second; copy = copy' } in
      let (claimed, taken, rest) = >>=-eq-ok (claim_selected now (tokens 0) one db) _ h in
      let (others, taken', last) =
        >>=-eq-ok (claim_each now tokens 1 (two ∷ []) claimed.1) _ rest in
      let (claimed', took, last') =
        >>=-eq-ok (claim_selected now (tokens 1) two claimed.1) _ taken' in
      let (job_1, claim_1, made_1, answer_1, stored_1) =
        claim_selected-eq-ok now (tokens 0) one db claimed.0 claimed.1 taken in
      let (job_2, claim_2, made_2, answer_2, stored_2) =
        claim_selected-eq-ok now (tokens 1) two claimed.1 claimed'.0 claimed'.1 took in
      let (named, kept) = claim_job-other now (tokens 1) second first job job_2 made_2 differ in
      let final : db'.jobs ≡ tables.insert job_2.job_id (encode_job job_2) claimed.1.jobs =
        sym (ap (λ r. r.1.jobs) (ok-injective last))
        ∙ sym (ap (λ r. r.1.jobs) (ok-injective last'))
        ∙ sym stored_2 in
      let later : others.0 ≡ claim_2 ∷ [] =
        sym (ap (λ r. r.0) (ok-injective last')) ∙ ap (λ a. with_claim a []) answer_2 in
      let all : claims ≡ claim_1 ∷ claim_2 ∷ [] =
        sym (ap (λ r. r.0) (ok-injective last))
        ∙ ap (λ a. with_claim a others.0) answer_1
        ∙ ap (λ rest. claim_1 ∷ rest) later in
      let fine = claim_job-IsStorable now (tokens 1) second job job_2 time text storable made_2 in
      (
        ap length all,
        (job_2, query-stored job.job_id job_2 claimed.1.jobs db' final named fine, kept),
      )
