-- ===== src/Store/JobCodes.antt =====
-- crates/tith-store/src/outbound.rs: the bytes that stand for the values of enums in a stored job.
use tith.Base.{ℕ, zero, suc, List, [], ◌∷◌, Result, ok, err}
use tith.Store.Types.{
  JobKind, JobState, DeliveryMode, FailureDisposition, FailureNotification, FailurePolicy,
  PermanentFailureKind, SourceKind, SourceDisposition, CleanupState, StoreError, corrupt_record,
}
use tith.Store.Bytes.{Reader, ◌>>=◌, return, take_byte}

-- `match take_byte(&mut input)? { 0 => .., 1 => .., _ => Err(..) }` over the values in order.
unfoldable pub pick : {A : Type 0} → List A → ℕ → Result StoreError A
pick [] code = err corrupt_record
pick (value ∷ values) zero = ok value
pick (value ∷ values) (suc code) = pick values code

unfoldable pub take_enum : {A : Type 0} → List A → Reader A
take_enum values = do
  code ← take_byte
  λ input. elim (pick values code) [ ok value ↦ ok (value, input) | err e ↦ err e ]

-- The casts `as u8`.
unfoldable pub kind_code : JobKind → ℕ
kind_code JobKind.net_mail = 0
kind_code JobKind.echo_mail = 1
kind_code JobKind.file = 2
kind_code JobKind.peer_file = 3
kind_code JobKind.file_request = 4

unfoldable pub state_code : JobState → ℕ
state_code JobState.queued = 0
state_code JobState.active = 1
state_code JobState.deferred = 2
state_code JobState.delivered = 3
state_code JobState.rejected = 4
state_code JobState.failed = 5
state_code JobState.cancelled = 6

unfoldable pub mode_code : DeliveryMode → ℕ
mode_code DeliveryMode.active = 0
mode_code DeliveryMode.passive = 1

unfoldable pub disposition_code : FailureDisposition → ℕ
disposition_code FailureDisposition.dead_letter = 0
disposition_code FailureDisposition.discard = 1

unfoldable pub notification_code : FailureNotification → ℕ
notification_code FailureNotification.no_one = 0
notification_code FailureNotification.sender = 1
notification_code FailureNotification.origin_sysop = 2
notification_code FailureNotification.both = 3

unfoldable pub failure_code : PermanentFailureKind → ℕ
failure_code PermanentFailureKind.relay_denied = 0
failure_code PermanentFailureKind.rejected = 1

unfoldable pub source_kind_code : SourceKind → ℕ
source_kind_code SourceKind.attachment = 0
source_kind_code SourceKind.file = 1

unfoldable pub source_disposition_code : SourceDisposition → ℕ
source_disposition_code SourceDisposition.keep = 0
source_disposition_code SourceDisposition.delete = 1
source_disposition_code SourceDisposition.truncate = 2

unfoldable pub cleanup_code : CleanupState → ℕ
cleanup_code CleanupState.not_requested = 0
cleanup_code CleanupState.pending = 1
cleanup_code CleanupState.complete = 2
cleanup_code CleanupState.not_found = 3
cleanup_code CleanupState.replaced = 4
cleanup_code CleanupState.failed = 5

unfoldable pub take_job_kind : Reader JobKind
unfolding take_enum
take_job_kind = take_enum (
    JobKind.net_mail ∷ JobKind.echo_mail ∷ JobKind.file ∷ JobKind.peer_file ∷ JobKind.file_request
    ∷ [])

unfoldable pub take_job_state : Reader JobState
unfolding take_enum
take_job_state = take_enum (
    JobState.queued ∷ JobState.active ∷ JobState.deferred ∷ JobState.delivered ∷ JobState.rejected
    ∷ JobState.failed ∷ JobState.cancelled ∷ [])

unfoldable pub take_mode : Reader DeliveryMode
unfolding take_enum
take_mode = take_enum (DeliveryMode.active ∷ DeliveryMode.passive ∷ [])

unfoldable pub take_policy : Reader FailurePolicy
unfolding take_enum
take_policy = do
  disposition ← take_enum (FailureDisposition.dead_letter ∷ FailureDisposition.discard ∷ [])
  notification ← take_enum (
      FailureNotification.no_one ∷ FailureNotification.sender ∷ FailureNotification.origin_sysop
      ∷ FailureNotification.both ∷ [])
  return (record { disposition = disposition; notification = notification })

unfoldable pub put_policy : FailurePolicy → List ℕ
put_policy policy = disposition_code policy.disposition ∷ notification_code policy.notification ∷ []

unfoldable pub take_failure_kind : Reader PermanentFailureKind
unfolding take_enum
take_failure_kind =
    take_enum (PermanentFailureKind.relay_denied ∷ PermanentFailureKind.rejected ∷ [])

unfoldable pub take_source_kind : Reader SourceKind
unfolding take_enum
take_source_kind = take_enum (SourceKind.attachment ∷ SourceKind.file ∷ [])

unfoldable pub take_source_disposition : Reader SourceDisposition
unfolding take_enum
take_source_disposition =
    take_enum (SourceDisposition.keep ∷ SourceDisposition.delete ∷ SourceDisposition.truncate ∷ [])

unfoldable pub take_cleanup : Reader CleanupState
unfolding take_enum
take_cleanup = take_enum (
    CleanupState.not_requested ∷ CleanupState.pending ∷ CleanupState.complete
    ∷ CleanupState.not_found ∷ CleanupState.replaced ∷ CleanupState.failed ∷ [])
