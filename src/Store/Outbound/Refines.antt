-- ===== src/Store/Outbound/Refines.antt =====
-- crates/tith-store/src/outbound.rs: each operation on the database does what its specification does
-- on the spool that the database represents, errors included, and keeps it so represented.
use tith.Base.{
  ℕ, ◌≡◌, refl, sym, ap, ap₂, ◌∙◌, subst, false, Bool-cases, ◌=?◌, nat_eq, list_eq, list_beq_iff,
  List, [], ◌∷◌, All, Option-cases, some, Result, Result-cases, ok, err, >>=-eq-ok, ok-injective,
  ◌>>=◌, inl, inr,
}
use tith.Base.Options.{some-injective}
use tith.Wire.Integer.{IsU64}
use tith.Store.Types.{Text, JobState, OutboundJob, DeliveryOutcome, StoreError}
use tith.Store.JobCodec.{encode_job}
use tith.Store.JobCodec.RoundTrip.{decode-encode_job}
use tith.Store.Table.{Entries, less, find, put, Tables, Db}
use tith.Store.Table.Entries.{map_some, find-encoded, put-encoded}
use tith.Store.Events.{next_event, append_event, encode_event}
use tith.Store.Outbound.{at_index, finish_copy, finish_job, settle_job}
use tith.Store.Outbound.Changes.{finish_job-IsSound}
use tith.Store.Outbound.Reported.{IsStorableOutcome, finish_job-IsStorable}
use tith.Store.Outbound.Operations.{query, save, finish_delivery}
use tith.Store.Outbound.Spool
use tith.Store.Outbound.Spool.{Spool, look, put_event, put_back, IsKept, Represents}

-- Two results agree where both are values that are related, or both the same error.
abbrev pub Agree :
    {A B : Type 0} → (A → B → Type 0) → Result StoreError A → Result StoreError B → Type 0
Agree R (ok a) (ok b) = R a b
Agree R (err e) (err e') = e ≡ e'
Agree R (ok a) (err e) = ⊥
Agree R (err e) (ok b) = ⊥

pub Agree->>= :
    {A B C D : Type 0} (Q : A → B → Type 0) (R : C → D → Type 0) (first : Result StoreError A)
    (first' : Result StoreError B) (next : A → Result StoreError C)
    (next' : B → Result StoreError D)
    → Agree Q first first'
    → ((a : A) (b : B) → first' ≡ ok b → Q a b → Agree R (next a) (next' b))
    → Agree R (first >>= next) (first' >>= next')
Agree->>= Q R (ok a) (ok b) next next' q later = later a b refl q
Agree->>= Q R (err e) (err e') next next' q later = q
Agree->>= Q R (ok a) (err e) next next' q later = elim q [ ]
Agree->>= Q R (err e) (ok b) next next' q later = elim q [ ]

-- The part of an operation that does not reach the database.
pub same->>= :
    {A C D : Type 0} (R : C → D → Type 0) (r : Result StoreError A) (next : A → Result StoreError C)
    (next' : A → Result StoreError D)
    → ((a : A) → r ≡ ok a → Agree R (next a) (next' a))
    → Agree R (r >>= next) (r >>= next')
same->>= R (ok a) next next' later = later a refl
same->>= R (err e) next next' later = refl

finish_job-job_id :
    (index : ℕ) (token : Text) (now : ℕ) (outcome : DeliveryOutcome) (job job' : OutboundJob)
    → finish_job index token now outcome job ≡ ok job'
    → job.job_id ≡ job'.job_id
unfolding finish_job settle_job
finish_job-job_id index token now outcome job job' e =
    let (copies, made, last) =
      >>=-eq-ok (at_index index (finish_copy job.state token outcome) job.deliveries) _ e in
    ap (λ j. j.job_id) (ok-injective last)

-- A job that is found is kept, and what is put beside kept jobs leaves them so.
find-IsKept :
    (key : Text) (entries : Entries OutboundJob) (job : OutboundJob)
    → All IsKept entries
    → find key entries ≡ some job
    → IsKept (key, job)
find-IsKept key [] job kept e = cc
find-IsKept key ((k, j) ∷ entries) job kept e = elim (Bool-cases (k =? key)) [
  | inl same ↦
      subst IsKept
        (ap₂ (λ a b. (a, b)) ((list_beq_iff k key).0 same) (some-injective (rw same at e))) kept.0
  | inr other ↦ find-IsKept key entries job kept.1 (rw other at e)
]

put-IsKept :
    (key : Text) (job : OutboundJob) (entries : Entries OutboundJob)
    → IsKept (key, job)
    → All IsKept entries
    → All IsKept (put key job entries)
put-IsKept key job [] new kept = (new, tt)
put-IsKept key job ((k, j) ∷ entries) new kept = elim (Bool-cases (k =? key)) [
  | inl same ↦ rw same (new, kept.1)
  | inr other ↦ elim (Bool-cases (less k key)) [
    | inl lower ↦ rw (other, lower) (kept.0, put-IsKept key job entries new kept.1)
    | inr higher ↦ rw (other, higher) (new, kept)
  ]
]

module _ {T : Type 0} ⦃tables : Tables T⦄ where
  pub query-refines :
      (job_id : Text) (db : Db T) (spool : Spool)
      → Represents db spool
      → Agree
          (λ job job'. (job ≡ job') × IsKept (job_id, job'))
          (query job_id db)
          (look job_id spool)
  unfolding query look
  query-refines job_id db spool h =
      let there : tables.get job_id db.jobs ≡ map_some encode_job (find job_id spool.jobs) =
        tables.get-iter job_id db.jobs
        ∙ ap (find job_id) h.jobs
        ∙ find-encoded encode_job job_id spool.jobs in
      elim (Option-cases (find job_id spool.jobs)) [
        | inl e ↦ rw (there, e) refl
        | inr (job, e) ↦
            let kept = find-IsKept job_id spool.jobs job h.kept e in
            rw (there, e, decode-encode_job job kept.storable) (refl, kept)
      ]

  pub append_event-refines :
      (job : OutboundJob) (previous : JobState) (logged : T) (events : Entries (List ℕ))
      → tables.iter logged ≡ events
      → Agree
          (λ t e. tables.iter t ≡ e)
          (append_event job (some previous) logged)
          (put_event job previous events)
  unfolding append_event put_event
  append_event-refines job previous logged events h =
      elim (Result-cases (next_event job (some previous) events)) [
        | inl (event, e) ↦
            let entry = encode_event (job.application, false, event) in
            rw (append_event, h, e)
              (tables.iter-insert event.event_id entry logged ∙ ap (put event.event_id entry) h)
        | inr (reason, e) ↦ rw (append_event, h, e) refl
      ]

  pub save-refines :
      (key : Text) (job : OutboundJob) (previous : JobState) (db : Db T) (spool : Spool)
      → Represents db spool
      → IsKept (key, job)
      → Agree Represents (save key job previous db) (put_back key job previous spool)
  unfolding save put_back
  save-refines key job previous db spool h kept =
      Agree->>= (λ t e. tables.iter t ≡ e) Represents (append_event job (some previous) db.events)
        (put_event job previous spool.events) _ _
        (append_event-refines job previous db.events spool.events h.events)
        (λ logged events made same. record {
          jobs =
              tables.iter-insert key (encode_job job) db.jobs
              ∙ ap (put key (encode_job job)) h.jobs
              ∙ put-encoded encode_job key job spool.jobs;
          items = h.items;
          events = same;
          kept = put-IsKept key job spool.jobs kept h.kept;
        })

  -- What an operation answers is the same, and it leaves a spool that the database represents.
  abbrev pub Answers : {A : Type 0} → A × Db T → A × Spool → Type 0
  Answers (answer, db) (answer', spool) = (answer ≡ answer') × Represents db spool

  -- An operation that first loads a job.
  pub query->>= :
      {A B : Type 0} (R : A → B → Type 0) (job_id : Text) (db : Db T) (spool : Spool)
      (next : OutboundJob → Result StoreError A) (next' : OutboundJob → Result StoreError B)
      → Represents db spool
      → ((job : OutboundJob) → IsKept (job_id, job) → Agree R (next job) (next' job))
      → Agree R (query job_id db >>= next) (look job_id spool >>= next')
  query->>= R job_id db spool next next' h later =
      Agree->>= (λ job job'. (job ≡ job') × IsKept (job_id, job')) R (query job_id db)
        (look job_id spool) next next' (query-refines job_id db spool h)
        (λ job job' found (same, kept).
          subst (λ j. Agree R (next j) (next' job')) (sym same) (later job' kept))

  -- An operation that ends by storing the job it has made.
  pub save->>= :
      {A : Type 0} (key : Text) (job : OutboundJob) (previous : JobState) (db : Db T)
      (spool : Spool) (answer : A)
      → Represents db spool
      → IsKept (key, job)
      → Agree Answers
          (save key job previous db >>= λ db'. ok (answer, db'))
          (put_back key job previous spool >>= λ spool'. ok (answer, spool'))
  save->>= key job previous db spool answer h kept =
      Agree->>= (λ d s. Represents d s) Answers (save key job previous db)
        (put_back key job previous spool) _ _ (save-refines key job previous db spool h kept)
        (λ db' spool' made rep. (refl, rep))

  -- The end of a delivery.
  pub finish_delivery-refines :
      (job_id : Text) (index : ℕ) (token : Text) (now : ℕ) (outcome : DeliveryOutcome) (db : Db T)
      (spool : Spool)
      → IsU64 now
      → IsStorableOutcome outcome
      → Represents db spool
      → Agree Answers
          (finish_delivery job_id index token now outcome db)
          (Spool.finish_delivery job_id index token now outcome spool)
  unfolding finish_delivery Spool.finish_delivery
  finish_delivery-refines job_id index token now outcome db spool time fine h =
      query->>= Answers job_id db spool _ _ h (λ job kept.
        same->>= Answers (finish_job index token now outcome job) _ _ (λ finished made.
          save->>= job_id finished job.state db spool finished.state h (record {
            named = kept.named ∙ finish_job-job_id index token now outcome job finished made;
            storable =
                finish_job-IsStorable index token now outcome job finished time fine kept.storable
                  made;
            sound = finish_job-IsSound index token now outcome job finished kept.sound made;
          })))
