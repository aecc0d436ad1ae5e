-- ===== src/Store/Outbound/Claims.antt =====
-- crates/tith-store/src/outbound.rs: `claim_matching` claims a copy that waits, and who has claimed a
-- copy, and nobody else, can report on it.
use tith.Base.{
  ℕ, zero, suc, ◌≡◌, refl, sym, ap, ◌∙◌, subst, Bool, true, Bool-cases, ◌&&◌, and-true_iff, nat_eq,
  list_eq, option_eq, List, [], ◌∷◌, All, get_elem?, drop, Option, Option-cases, none, some, ok,
  ok_or, >>=-eq-ok, ok-injective, inl, inr,
}
use tith.Base.Options.{some-injective}
use tith.Wire.Integer.{IsU64}
use tith.Store.Types.{Text, DeliveryRecord, OutboundJob, corrupt_record, stuck}
use tith.Store.JobCodec.{encode_job}
use tith.Store.JobCodec.RoundTrip.{decode-encode_job}
use tith.Store.Bytes.Reading.{IsText}
use tith.Store.Table.{Entries, find, encoded, Tables, Db}
use tith.Store.Outbound.{eligible, claim_copy, at_position, claim_job, settle_job}
use tith.Store.Outbound.Changes.{IsWaiting, claim_job-IsSound}
use tith.Store.Outbound.Reported.{claim_job-IsStorable}
use tith.Store.Outbound.Operations.{
  Selected, earlier, consider, choose, select, claim_matching, claim_selected, save,
}
use tith.Store.Outbound.Spool
use tith.Store.Outbound.Spool.{Spool, IsKept, Represents}
use tith.Store.Outbound.Refines.{Agree, Agree->>=, same->>=, save-refines, Answers}

-- A copy of a kept job, at its position, that may be claimed.
pub record IsChoice (now : ℕ) (matches_selector : DeliveryRecord → Bool) (choice : Selected)
    : Type 0 where
  pub kept : (key : Text) × IsKept (key, choice.job)
  pub there : get_elem? choice.job.deliveries choice.position ≡ some choice.copy
  pub able : eligible now matches_selector choice.copy ≡ true

abbrev pub IsChosen : ℕ → (DeliveryRecord → Bool) → Option Selected → Type 0
IsChosen now matches_selector none = Unit
IsChosen now matches_selector (some choice) = IsChoice now matches_selector choice

drop-cons :
    (n : ℕ) (xs ys : List DeliveryRecord) (y : DeliveryRecord)
    → drop n xs ≡ y ∷ ys
    → (get_elem? xs n ≡ some y) × (drop (suc n) xs ≡ ys)
drop-cons zero [] ys y e = cc
drop-cons zero (x ∷ xs) ys y e = (cc, cc)
drop-cons (suc n) [] ys y e = cc
drop-cons (suc n) (x ∷ xs) ys y e = drop-cons n xs ys y e

module _ (now : ℕ) (matches_selector : DeliveryRecord → Bool) where
  consider-IsChosen :
      (candidate : Selected) (selected : Option Selected)
      → (eligible now matches_selector candidate.copy ≡ true
          → IsChoice now matches_selector candidate)
      → IsChosen now matches_selector selected
      → IsChosen now matches_selector (consider now matches_selector candidate selected)
  unfolding consider
  consider-IsChosen candidate selected able h =
      elim (Bool-cases
        (eligible now matches_selector candidate.copy && earlier candidate selected)) [
          | inl e ↦ rw (consider, e) (able ((and-true_iff _ _).0 e).0)
          | inr e ↦ rw (consider, e) h
        ]

  choose-IsChosen :
      (key : Text) (job : OutboundJob) (position : ℕ) (copies : List DeliveryRecord)
      (selected : Option Selected)
      → IsKept (key, job)
      → drop position job.deliveries ≡ copies
      → IsChosen now matches_selector selected
      → IsChosen now matches_selector (choose now matches_selector job position copies selected)
  unfolding choose
  choose-IsChosen key job position [] selected kept e h = h
  choose-IsChosen key job position (copy ∷ copies) selected kept e h =
      let (here, later) = drop-cons position job.deliveries copies copy e in
      choose-IsChosen key job (suc position) copies _ kept later (
        consider-IsChosen (record { job = job; position = position; copy = copy }) selected
          (λ able. record { kept = (key, kept); there = here; able = able }) h)

  select-IsChosen :
      (entries : Entries OutboundJob) (selected : Option Selected)
      → All IsKept entries
      → IsChosen now matches_selector selected
      → IsChosen now matches_selector (Spool.select now matches_selector entries selected)
  unfolding Spool.select
  select-IsChosen [] selected kept h = h
  select-IsChosen ((key, job) ∷ entries) selected kept h =
      select-IsChosen entries _ kept.1
        (choose-IsChosen key job 0 job.deliveries selected kept.0 refl h)

  -- The jobs are read back as they are walked.
  select-encoded :
      (entries : Entries OutboundJob) (selected : Option Selected)
      → All IsKept entries
      → select now matches_selector (encoded encode_job entries) selected
        ≡ ok (Spool.select now matches_selector entries selected)
  unfolding select Spool.select
  select-encoded [] selected kept = refl
  select-encoded ((key, job) ∷ entries) selected kept = rw (
    decode-encode_job job kept.0.storable,
    select-encoded entries (choose now matches_selector job 0 job.deliveries selected) kept.1,
  )

  eligible-IsWaiting :
      (copy : DeliveryRecord) → eligible now matches_selector copy ≡ true → IsWaiting copy
  unfolding eligible
  eligible-IsWaiting copy h = ((and-true_iff _ _).0 ((and-true_iff _ _).0 h).0).1

-- A claimed job is kept as its own.
claim_job-job_id :
    (now : ℕ) (token : Text) (position : ℕ) (job job' : OutboundJob)
    → claim_job now token position job ≡ ok job'
    → job.job_id ≡ job'.job_id
unfolding claim_job settle_job
claim_job-job_id now token position job job' e =
    let (copies, made, last) =
      >>=-eq-ok (at_position position (claim_copy token) job.deliveries) _ e in
    ap (λ j. j.job_id) (ok-injective last)

pub claimed-IsKept :
    (now : ℕ) (matches_selector : DeliveryRecord → Bool) (token : Text) (choice : Selected)
    (job : OutboundJob)
    → IsU64 now
    → IsText token
    → IsChoice now matches_selector choice
    → claim_job now token choice.position choice.job ≡ ok job
    → IsKept (job.job_id, job)
claimed-IsKept now matches_selector token choice job time text h made =
    let kept = h.kept.1 in
    let waits : (copy : DeliveryRecord)
        → get_elem? choice.job.deliveries choice.position ≡ some copy
        → IsWaiting copy =
      λ copy e.
        subst IsWaiting (some-injective (sym h.there ∙ e))
          (eligible-IsWaiting now matches_selector choice.copy h.able) in
    record {
      named = refl;
      storable =
          claim_job-IsStorable now token choice.position choice.job job time text kept.storable
            made;
      sound = claim_job-IsSound now token choice.position choice.job job kept.sound waits made;
    }

module _ {T : Type 0} ⦃tables : Tables T⦄ where
  claim_selected-refines :
      (now : ℕ) (matches_selector : DeliveryRecord → Bool) (token : Text) (choice : Selected)
      (db : Db T) (spool : Spool)
      → IsU64 now
      → IsText token
      → IsChoice now matches_selector choice
      → Represents db spool
      → Agree Answers
          (claim_selected now token choice db)
          (Spool.claim_selected now token choice spool)
  unfolding claim_selected Spool.claim_selected
  claim_selected-refines now matches_selector token choice db spool time text choice_fine h =
      same->>= Answers (claim_job now token choice.position choice.job) _ _ (λ job made.
        let item : tables.get job.job_id db.items ≡ find job.job_id spool.items =
          tables.get-iter job.job_id db.items ∙ ap (find job.job_id) h.items in
        rw item (
          same->>= Answers (ok_or corrupt_record (find job.job_id spool.items)) _ _ (λ bytes taken.
            Agree->>= (λ d s. Represents d s) Answers (save job.job_id job choice.job.state db) _ _
              _
              (save-refines job.job_id job choice.job.state db spool h
                (claimed-IsKept now matches_selector token choice job time text choice_fine made))
              (λ db' spool' stored rep.
                same->>= Answers (ok_or stuck (get_elem? job.deliveries choice.position)) _ _
                  (λ delivery there. (refl, rep))))))

  -- Claiming.
  pub claim_matching-refines :
      (now : ℕ) (matches_selector : DeliveryRecord → Bool) (token : Text) (db : Db T)
      (spool : Spool)
      → IsU64 now
      → IsText token
      → Represents db spool
      → Agree Answers
          (claim_matching now matches_selector token db)
          (Spool.claim_matching now matches_selector token spool)
  unfolding claim_matching Spool.claim_matching
  claim_matching-refines now matches_selector token db spool time text h =
      let walked : select now matches_selector (tables.iter db.jobs) none
          ≡ ok (Spool.select now matches_selector spool.jobs none) =
        ap (λ entries. select now matches_selector entries none) h.jobs
        ∙ select-encoded now matches_selector spool.jobs none h.kept in
      let chosen = select-IsChosen now matches_selector spool.jobs none h.kept tt in
      elim (Option-cases (Spool.select now matches_selector spool.jobs none)) [
        | inl e ↦ rw (walked, e) (refl, h)
        | inr (choice, e) ↦
            rw (walked, e)
              (claim_selected-refines now matches_selector token choice db spool time text
                (subst (IsChosen now matches_selector) e chosen) h)
      ]
