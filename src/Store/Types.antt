-- ===== src/Store/Types.antt =====
-- crates/tith-store/src/lib.rs and outbound.rs: the records of the store and its errors. A `String`
-- is the list of its bytes. The errors of the database itself are left out.
use tith.Base.{ℕ, ◌+◌, Bool, true, false, List, [], ◌∷◌, Option}
use tith.Wire.Address.{PublicKey, TlvHash}

abbrev pub Text : Type 0
Text = List ℕ

pub data JobKind : Type 0 where
  net_mail echo_mail file peer_file file_request : JobKind

unfoldable pub is_direct : JobKind → Bool
is_direct peer_file = true
is_direct file_request = true
is_direct _ = false

unfoldable pub has_destination : JobKind → Bool
has_destination net_mail = true
has_destination peer_file = true
has_destination file_request = true
has_destination _ = false

pub data JobTarget : Type 0 where
  destination area : Text → JobTarget

pub data JobState : Type 0 where
  queued active deferred delivered rejected failed cancelled : JobState

pub data DeliveryMode : Type 0 where
  active passive : DeliveryMode

pub data FailureDisposition : Type 0 where
  dead_letter discard : FailureDisposition

pub data FailureNotification : Type 0 where
  no_one sender origin_sysop both : FailureNotification

pub record FailurePolicy : Type 0 where
  pub disposition : FailureDisposition
  pub notification : FailureNotification

pub data PermanentFailureKind : Type 0 where
  relay_denied rejected : PermanentFailureKind

pub record NewDelivery : Type 0 where
  pub local_identity : Text
  pub next_hop : Text
  pub next_hop_key : Option PublicKey
  pub mode : DeliveryMode
  pub class : Text
  pub retry_at : Option ℕ
  pub policies : FailurePolicy × FailurePolicy

pub record DeliveryRecord : Type 0 where
  pub index : ℕ
  pub local_identity : Text
  pub next_hop : Text
  pub next_hop_key : Option PublicKey
  pub mode : DeliveryMode
  pub class : Text
  pub retry_at : Option ℕ
  pub policies : FailurePolicy × FailurePolicy
  pub state : JobState
  pub attempts : ℕ
  pub last_result : Text
  pub last_failure : Option PermanentFailureKind
  pub worker_token : Option Text

pub data SourceKind : Type 0 where
  attachment file : SourceKind

pub data SourceDisposition : Type 0 where
  keep delete truncate : SourceDisposition

pub data CleanupState : Type 0 where
  not_requested pending complete not_found replaced failed : CleanupState

pub record SourceRecord : Type 0 where
  pub index : ℕ
  pub kind : SourceKind
  pub wire_filename : Text
  pub path : Option Text
  pub disposition : SourceDisposition
  pub cleanup : CleanupState
  pub file_identity : List ℕ

pub record SubmissionIdentity : Type 0 where
  pub application : Text
  pub idempotency_key : Text
  pub digest : TlvHash

pub record NewOutboundJob : Type 0 where
  pub identity : SubmissionIdentity
  pub kind : JobKind
  pub target : JobTarget
  pub local_identity : Text
  pub item : List ℕ
  pub deliveries : List NewDelivery
  pub sources : List SourceRecord
  pub created : ℕ
  pub forward_inbound : Option Text
  pub forward_claim_token : Option Text

pub record OutboundJob : Type 0 where
  pub job_id : Text
  pub application : Text
  pub idempotency_key : Text
  pub digest : TlvHash
  pub kind : JobKind
  pub target : JobTarget
  pub local_identity : Text
  pub state : JobState
  pub created : ℕ
  pub changed : ℕ
  pub deliveries : List DeliveryRecord
  pub sources : List SourceRecord
  pub forward_inbound : Option Text
  pub last_result : Text

abbrev total : List DeliveryRecord → ℕ
total [] = 0
total (copy ∷ copies) = copy.attempts + total copies

unfoldable pub attempts : OutboundJob → ℕ
attempts self = total self.deliveries

pub record DeliveryClaim : Type 0 where
  pub job_id : Text
  pub delivery_index : ℕ
  pub worker_token : Text
  pub item : List ℕ
  pub delivery : DeliveryRecord

pub data DeliveryOutcome : Type 0 where
  delivered : Text → DeliveryOutcome
  deferred : ℕ → Text → DeliveryOutcome
  rejected : PermanentFailureKind → Text → DeliveryOutcome
  failed : Text → DeliveryOutcome

pub record OutboundEvent : Type 0 where
  pub event_id : Text
  pub job_id : Text
  pub previous : Option JobState
  pub current : JobState
  pub changed : ℕ
  pub last_result : Text

pub data ControlOutcome : Type 0 where
  completed busy not_permitted : JobState → ControlOutcome

pub data InboundState : Type 0 where
  available claimed deferred consumed rejected failed : InboundState

-- Of the errors, those that do not come from the database or the cryptography; `stuck` is no value
-- of the source.
pub data StoreError : Type 0 where
  invalid_payload corrupt_record not_found : StoreError
  unsupported_outbound_version unsupported_inbound_version : ℕ → StoreError
  stale : InboundState → StoreError
  job_stale : JobState → StoreError
  stuck : StoreError
