-- ===== src/Store/JobCodec/Parts.antt =====
-- crates/tith-store/src/outbound.rs: the parts of a stored job are read back.
use tith.Base.{ℕ, ◌≡◌, refl, List, [], ◌∷◌, ◌++◌, append_assoc, length, All, Option, none, some, ok}
use tith.Wire.Address.{PublicKey}
use tith.Wire.Integer.{IsU64}
use tith.Store.Types.{JobTarget, PermanentFailureKind, DeliveryRecord, SourceRecord}
use tith.Store.Bytes.{Reader, take_byte, put_optional, take_optional, take_bytes_fixed}
use tith.Store.Bytes.Reading.{
  IsText, IsOptional, take_u64-put, take_bytes-put, take_string-put, take_bytes_fixed-append,
  take_optional-put, take_optional_string-put, take_optional_u64-put,
}
use tith.Store.JobCodec.{
  put_target, take_target, put_delivery, take_delivery, put_source, take_source, put_all, take_all,
}
use tith.Store.JobCodes.{failure_code, take_failure_kind}
use tith.Store.JobCodec.Enums.{
  take_job_state-code, take_mode-code, take_failure_kind-code, take_source_kind-code,
  take_source_disposition-code, take_cleanup-code, take_policy-put,
}

-- What the encoding of a copy needs: texts in UTF-8, numbers of 64 bits and keys of 32 bytes.
pub record IsStorableCopy (copy : DeliveryRecord) : Type 0 where
  pub index : IsU64 copy.index
  pub local_identity : IsText copy.local_identity
  pub next_hop : IsText copy.next_hop
  pub next_hop_key : IsOptional (λ key. length key ≡ 32) copy.next_hop_key
  pub class : IsText copy.class
  pub retry_at : IsOptional IsU64 copy.retry_at
  pub attempts : IsU64 copy.attempts
  pub last_result : IsText copy.last_result
  pub worker_token : IsOptional IsText copy.worker_token

pub record IsStorableSource (source : SourceRecord) : Type 0 where
  pub index : IsU64 source.index
  pub wire_filename : IsText source.wire_filename
  pub path : IsOptional IsText source.path
  pub file_identity : IsU64 (length source.file_identity)

abbrev pub IsStorableTarget : JobTarget → Type 0
IsStorableTarget (JobTarget.destination text) = IsText text
IsStorableTarget (JobTarget.area text) = IsText text

pub take_target-put :
    (target : JobTarget) (rest : List ℕ)
    → IsStorableTarget target
    → take_target (put_target target ++ rest) ≡ ok (target, rest)
unfolding take_target put_target take_byte
take_target-put (JobTarget.destination text) rest h = rw (take_string-put text rest h)
take_target-put (JobTarget.area text) rest h = rw (take_string-put text rest h)

key-put :
    (key : Option PublicKey) (rest : List ℕ)
    → IsOptional (λ k. length k ≡ 32) key
    → take_optional (take_bytes_fixed 32) (put_optional (λ k. k) key ++ rest) ≡ ok (key, rest)
key-put =
    take_optional-put (λ k. length k ≡ 32) (λ k. k) (take_bytes_fixed 32)
      (λ a rest h. take_bytes_fixed-append 32 a rest h)

failure-put :
    (failure : Option PermanentFailureKind) (rest : List ℕ)
    → take_optional take_failure_kind
        (put_optional (λ kind. failure_code kind ∷ []) failure ++ rest)
      ≡ ok (failure, rest)
failure-put none rest =
    take_optional-put (λ _. Unit {0}) _ take_failure_kind
      (λ a rest h. take_failure_kind-code a rest) none rest tt
failure-put (some f) rest =
    take_optional-put (λ _. Unit {0}) _ take_failure_kind
      (λ a rest h. take_failure_kind-code a rest) (some f) rest tt

pub take_delivery-put :
    (copy : DeliveryRecord) (rest : List ℕ)
    → IsStorableCopy copy
    → take_delivery (put_delivery copy ++ rest) ≡ ok (copy, rest)
unfolding take_delivery put_delivery
take_delivery-put copy rest h = simp append_assoc (
    rw (
      take_u64-put copy.index _ h.index,
      take_string-put copy.local_identity _ h.local_identity,
      take_string-put copy.next_hop _ h.next_hop,
      key-put copy.next_hop_key _ h.next_hop_key,
      take_mode-code copy.mode _,
      take_string-put copy.class _ h.class,
      take_optional_u64-put copy.retry_at _ h.retry_at,
      take_policy-put copy.policies.0 _,
      take_policy-put copy.policies.1 _,
      take_job_state-code copy.state _,
      take_u64-put copy.attempts _ h.attempts,
      take_string-put copy.last_result _ h.last_result,
      failure-put copy.last_failure _,
      take_optional_string-put copy.worker_token _ h.worker_token,
    ))

pub take_source-put :
    (source : SourceRecord) (rest : List ℕ)
    → IsStorableSource source
    → take_source (put_source source ++ rest) ≡ ok (source, rest)
unfolding take_source put_source
take_source-put source rest h = simp append_assoc (
    rw (
      take_u64-put source.index _ h.index,
      take_source_kind-code source.kind _,
      take_string-put source.wire_filename _ h.wire_filename,
      take_optional_string-put source.path _ h.path,
      take_source_disposition-code source.disposition _,
      take_cleanup-code source.cleanup _,
      take_bytes-put source.file_identity _ h.file_identity,
    ))

pub take_all-put :
    {A : Type 0} (P : A → Type 0) (put : A → List ℕ) (reader : Reader A)
    → ((a : A) (rest : List ℕ) → P a → reader (put a ++ rest) ≡ ok (a, rest))
    → (values : List A) (rest : List ℕ) → All P values
    → take_all reader (length values) (put_all put values ++ rest) ≡ ok (values, rest)
unfolding take_all put_all
take_all-put P put reader reads [] rest h = refl
take_all-put P put reader reads (a ∷ values) rest h = rw (
  append_assoc (put a) (put_all put values) rest,
  reads a _ h.0,
  take_all-put P put reader reads values rest h.1,
)
