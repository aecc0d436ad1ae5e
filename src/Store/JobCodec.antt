-- ===== src/Store/JobCodec.antt =====
-- crates/tith-store/src/outbound.rs: the stored form of a job, `encode_job` and `decode_job`.
pub mod Enums
pub mod Parts
pub mod RoundTrip
use tith.Base.{
  ℕ, zero, suc, ◌+◌, ◌==◌, if◌then◌else◌, List, [], ◌∷◌, ◌++◌, length, Option, none, some, Result,
  ok, err,
}
use tith.Wire.Address.{PublicKey}
use tith.Store.Types
use tith.Store.Types.{
  Text, JobKind, JobTarget, JobState, DeliveryMode, FailureDisposition, FailureNotification,
  FailurePolicy, PermanentFailureKind, DeliveryRecord, SourceKind, SourceDisposition, CleanupState,
  SourceRecord, OutboundJob, StoreError, corrupt_record, unsupported_outbound_version,
}
use tith.Store.Bytes.{
  Reader, onward, ◌>>=◌, ◌>>◌, return, fail, put_u64, take_u64, put_bytes, take_bytes, put_string,
  take_string, take_byte, take_bytes_fixed, put_optional, take_optional, put_optional_string,
  take_optional_string, put_optional_u64, take_optional_u64, take_count,
}
use tith.Store.JobCodes.{
  kind_code, state_code, mode_code, failure_code, source_kind_code, source_disposition_code,
  cleanup_code, take_job_kind, take_job_state, take_mode, take_policy, put_policy,
  take_failure_kind, take_source_kind, take_source_disposition, take_cleanup,
}

unfoldable pub put_target : JobTarget → List ℕ
put_target (JobTarget.destination text) = 0 ∷ put_string text
put_target (JobTarget.area text) = 1 ∷ put_string text

unfoldable pub take_target : Reader JobTarget
take_target = do
  target_kind ← take_byte
  target_text ← take_string
  if target_kind == 0
      then return (JobTarget.destination target_text)
      else if target_kind == 1
      then return (JobTarget.area target_text)
      else fail corrupt_record

-- A round of the first loop of `encode_job`.
unfoldable pub put_delivery : DeliveryRecord → List ℕ
unfolding put_policy
put_delivery copy =
    put_u64 copy.index
    ++ (put_string copy.local_identity
        ++ (put_string copy.next_hop
            ++ (put_optional (λ key. key) copy.next_hop_key
                ++ ((mode_code copy.mode ∷ [])
                    ++ (put_string copy.class
                        ++ (put_optional_u64 copy.retry_at
                            ++ (put_policy copy.policies.0
                                ++ (put_policy copy.policies.1
                                    ++ ((state_code copy.state ∷ [])
                                        ++ (put_u64 copy.attempts
                                            ++ (put_string copy.last_result
                                                ++ (put_optional (λ kind. failure_code kind ∷ [])
                                                      copy.last_failure
                                                    ++ put_optional_string
                                                        copy.worker_token))))))))))))

-- A round of the first loop of `decode_job`.
unfoldable pub take_delivery : Reader DeliveryRecord
take_delivery = do
  index ← take_u64
  local_identity ← take_string
  next_hop ← take_string
  next_hop_key ← take_optional (take_bytes_fixed 32)
  mode ← take_mode
  class ← take_string
  retry_at ← take_optional_u64
  relay_denied ← take_policy
  rejected ← take_policy
  state ← take_job_state
  attempts ← take_u64
  last_result ← take_string
  last_failure ← take_optional take_failure_kind
  worker_token ← take_optional_string
  return (record {
    index = index;
    local_identity = local_identity;
    next_hop = next_hop;
    next_hop_key = next_hop_key;
    mode = mode;
    class = class;
    retry_at = retry_at;
    policies = (relay_denied, rejected);
    state = state;
    attempts = attempts;
    last_result = last_result;
    last_failure = last_failure;
    worker_token = worker_token;
  })

unfoldable pub put_source : SourceRecord → List ℕ
put_source source =
    put_u64 source.index
    ++ ((source_kind_code source.kind ∷ [])
        ++ (put_string source.wire_filename
            ++ (put_optional_string source.path
                ++ ((source_disposition_code source.disposition ∷ [])
                    ++ ((cleanup_code source.cleanup ∷ []) ++ put_bytes source.file_identity)))))

unfoldable pub take_source : Reader SourceRecord
take_source = do
  index ← take_u64
  kind ← take_source_kind
  wire_filename ← take_string
  path ← take_optional_string
  disposition ← take_source_disposition
  cleanup ← take_cleanup
  file_identity ← take_bytes
  return (record {
    index = index;
    kind = kind;
    wire_filename = wire_filename;
    path = path;
    disposition = disposition;
    cleanup = cleanup;
    file_identity = file_identity;
  })

-- The two loops, over as many values as were counted.
unfoldable pub put_all : {A : Type 0} → (A → List ℕ) → List A → List ℕ
put_all put [] = []
put_all put (value ∷ values) = put value ++ put_all put values

unfoldable pub take_all : {A : Type 0} → Reader A → ℕ → Reader (List A)
take_all reader zero = return []
take_all reader (suc n) = do value ← reader; values ← take_all reader n; return (value ∷ values)

unfoldable pub encode_job : OutboundJob → List ℕ
encode_job value =
    4
    ∷ (put_string value.job_id
        ++ (put_string value.application
            ++ (put_string value.idempotency_key
                ++ (value.digest
                    ++ ((kind_code value.kind ∷ [])
                        ++ (put_target value.target
                            ++ ((state_code value.state ∷ [])
                                ++ (put_u64 value.created
                                    ++ (put_u64 value.changed
                                        ++ (put_string value.last_result
                                            ++ (put_optional_string value.forward_inbound
                                                ++ (put_u64 (length value.deliveries)
                                                    ++ (put_all put_delivery value.deliveries
                                                        ++ (put_u64 (length value.sources)
                                                            ++ (put_all put_source value.sources
                                                            ++ put_string
                                                            value.local_identity)))))))))))))))

-- The local identity of a job, in the form of the record that ends before it.
abbrev first_identity : List DeliveryRecord → Text
first_identity [] = []
first_identity (copy ∷ copies) = copy.local_identity

unfoldable pub take_local_identity : List DeliveryRecord → Reader Text
take_local_identity deliveries [] = ok (first_identity deliveries, [])
take_local_identity deliveries (byte ∷ input) = take_string (byte ∷ input)

-- `if !input.is_empty()`.
unfoldable pub at_end : {A : Type 0} → Result StoreError (A × List ℕ) → Result StoreError A
at_end (err e) = err e
at_end (ok (value, [])) = ok value
at_end (ok (value, byte ∷ input)) = err corrupt_record

unfoldable pub take_job : Reader OutboundJob
take_job = do
  job_id ← take_string
  application ← take_string
  idempotency_key ← take_string
  digest ← take_bytes_fixed 32
  kind ← take_job_kind
  target ← take_target
  state ← take_job_state
  created ← take_u64
  changed ← take_u64
  last_result ← take_string
  forward_inbound ← take_optional_string
  delivery_count ← take_count
  deliveries ← take_all take_delivery delivery_count
  source_count ← take_count
  sources ← take_all take_source source_count
  local_identity ← take_local_identity deliveries
  return (record {
    job_id = job_id;
    application = application;
    idempotency_key = idempotency_key;
    digest = digest;
    kind = kind;
    target = target;
    local_identity = local_identity;
    state = state;
    created = created;
    changed = changed;
    deliveries = deliveries;
    sources = sources;
    forward_inbound = forward_inbound;
    last_result = last_result;
  })

unfoldable pub take_version : Reader (Unit {0})
take_version = do
  version ← take_byte
  if version == 4 then return tt else fail (unsupported_outbound_version version)

unfoldable pub decode_job : List ℕ → Result StoreError OutboundJob
unfolding take_version at_end
decode_job input = at_end ((take_version >> take_job) input)
