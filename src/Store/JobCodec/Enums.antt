-- ===== src/Store/JobCodec/Enums.antt =====
-- crates/tith-store/src/outbound.rs: each code is read back as the value that has it.
use tith.Base.{ℕ, ◌≡◌, refl, List, ◌∷◌, ◌++◌, ok}
use tith.Store.Types.{
  JobKind, JobState, DeliveryMode, FailureDisposition, FailureNotification, FailurePolicy,
  PermanentFailureKind, SourceKind, SourceDisposition, CleanupState,
}
use tith.Store.Bytes.{take_byte}
use tith.Store.JobCodes.{
  pick, kind_code, state_code, mode_code, put_policy, failure_code, source_kind_code,
  source_disposition_code, cleanup_code, take_job_kind, take_job_state, take_mode, take_policy,
  take_failure_kind, take_source_kind, take_source_disposition, take_cleanup, disposition_code,
  notification_code,
}

pub take_job_kind-code :
    (value : JobKind) (rest : List ℕ) → take_job_kind (kind_code value ∷ rest) ≡ ok (value, rest)
unfolding take_job_kind kind_code pick take_byte
take_job_kind-code JobKind.net_mail rest = refl
take_job_kind-code JobKind.echo_mail rest = refl
take_job_kind-code JobKind.file rest = refl
take_job_kind-code JobKind.peer_file rest = refl
take_job_kind-code JobKind.file_request rest = refl

pub take_job_state-code :
    (value : JobState) (rest : List ℕ) → take_job_state (state_code value ∷ rest) ≡ ok (value, rest)
unfolding take_job_state state_code pick take_byte
take_job_state-code JobState.queued rest = refl
take_job_state-code JobState.active rest = refl
take_job_state-code JobState.deferred rest = refl
take_job_state-code JobState.delivered rest = refl
take_job_state-code JobState.rejected rest = refl
take_job_state-code JobState.failed rest = refl
take_job_state-code JobState.cancelled rest = refl

pub take_mode-code :
    (value : DeliveryMode) (rest : List ℕ) → take_mode (mode_code value ∷ rest) ≡ ok (value, rest)
unfolding take_mode mode_code pick take_byte
take_mode-code DeliveryMode.active rest = refl
take_mode-code DeliveryMode.passive rest = refl

pub take_failure_kind-code :
    (value : PermanentFailureKind) (rest : List ℕ)
    → take_failure_kind (failure_code value ∷ rest) ≡ ok (value, rest)
unfolding take_failure_kind failure_code pick take_byte
take_failure_kind-code PermanentFailureKind.relay_denied rest = refl
take_failure_kind-code PermanentFailureKind.rejected rest = refl

pub take_source_kind-code :
    (value : SourceKind) (rest : List ℕ)
    → take_source_kind (source_kind_code value ∷ rest) ≡ ok (value, rest)
unfolding take_source_kind source_kind_code pick take_byte
take_source_kind-code SourceKind.attachment rest = refl
take_source_kind-code SourceKind.file rest = refl

pub take_source_disposition-code :
    (value : SourceDisposition) (rest : List ℕ)
    → take_source_disposition (source_disposition_code value ∷ rest) ≡ ok (value, rest)
unfolding take_source_disposition source_disposition_code pick take_byte
take_source_disposition-code SourceDisposition.keep rest = refl
take_source_disposition-code SourceDisposition.delete rest = refl
take_source_disposition-code SourceDisposition.truncate rest = refl

pub take_cleanup-code :
    (value : CleanupState) (rest : List ℕ)
    → take_cleanup (cleanup_code value ∷ rest) ≡ ok (value, rest)
unfolding take_cleanup cleanup_code pick take_byte
take_cleanup-code CleanupState.not_requested rest = refl
take_cleanup-code CleanupState.pending rest = refl
take_cleanup-code CleanupState.complete rest = refl
take_cleanup-code CleanupState.not_found rest = refl
take_cleanup-code CleanupState.replaced rest = refl
take_cleanup-code CleanupState.failed rest = refl

take_policy-codes :
    (d : FailureDisposition) (n : FailureNotification) (rest : List ℕ)
    → take_policy (disposition_code d ∷ notification_code n ∷ rest)
      ≡ ok (record { disposition = d; notification = n }, rest)
unfolding take_policy disposition_code notification_code pick take_byte
take_policy-codes FailureDisposition.dead_letter FailureNotification.no_one rest = refl
take_policy-codes FailureDisposition.dead_letter FailureNotification.sender rest = refl
take_policy-codes FailureDisposition.dead_letter FailureNotification.origin_sysop rest = refl
take_policy-codes FailureDisposition.dead_letter FailureNotification.both rest = refl
take_policy-codes FailureDisposition.discard FailureNotification.no_one rest = refl
take_policy-codes FailureDisposition.discard FailureNotification.sender rest = refl
take_policy-codes FailureDisposition.discard FailureNotification.origin_sysop rest = refl
take_policy-codes FailureDisposition.discard FailureNotification.both rest = refl

pub take_policy-put :
    (policy : FailurePolicy) (rest : List ℕ)
    → take_policy (put_policy policy ++ rest) ≡ ok (policy, rest)
unfolding put_policy
take_policy-put policy rest = take_policy-codes policy.disposition policy.notification rest
