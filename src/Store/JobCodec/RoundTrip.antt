-- ===== src/Store/JobCodec/RoundTrip.antt =====
-- crates/tith-store/src/outbound.rs: a stored job is read back as it was written.
use tith.Base.{◌≡◌, refl, ◌∙◌, [], List, append-nil, length, All, ok}
use tith.Wire.Integer.{IsU64}
use tith.Store.Types.{Text, DeliveryRecord, OutboundJob}
use tith.Store.Bytes.{put_string, take_string, put_bytes, put_u64, to_be, take_byte, take_count}
use tith.Store.Bytes.Reading.{
  IsText, IsOptional, take_u64-put, take_string-put, take_bytes_fixed-append,
  take_optional_string-put,
}
use tith.Store.JobCodec.{
  put_delivery, take_delivery, put_source, take_source, take_local_identity, at_end, take_version,
  take_job, encode_job, decode_job,
}
use tith.Store.JobCodec.Enums.{take_job_kind-code, take_job_state-code}
use tith.Store.JobCodec.Parts.{
  IsStorableCopy, IsStorableSource, IsStorableTarget, take_target-put, take_delivery-put,
  take_source-put, take_all-put,
}

-- What the encoding of a job needs: texts in UTF-8, numbers of 64 bits, a digest of 32 bytes.
pub record IsStorable (job : OutboundJob) : Type 0 where
  pub job_id : IsText job.job_id
  pub application : IsText job.application
  pub idempotency_key : IsText job.idempotency_key
  pub digest : length job.digest ≡ 32
  pub target : IsStorableTarget job.target
  pub local_identity : IsText job.local_identity
  pub created : IsU64 job.created
  pub changed : IsU64 job.changed
  pub last_result : IsText job.last_result
  pub forward_inbound : IsOptional IsText job.forward_inbound
  pub delivery_count : IsU64 (length job.deliveries)
  pub deliveries : All IsStorableCopy job.deliveries
  pub source_count : IsU64 (length job.sources)
  pub sources : All IsStorableSource job.sources

local_identity-starts :
    (copies : List DeliveryRecord) (s : Text)
    → take_local_identity copies (put_string s) ≡ take_string (put_string s)
unfolding take_local_identity put_string put_bytes put_u64 to_be
local_identity-starts copies s = refl

take_local_identity-put :
    (copies : List DeliveryRecord) (s : Text)
    → IsText s
    → take_local_identity copies (put_string s) ≡ ok (s, [])
take_local_identity-put copies s h =
    local_identity-starts copies s ∙ rw (← append-nil (put_string s), take_string-put s [] h)

pub decode-encode_job : (job : OutboundJob) → IsStorable job → decode_job (encode_job job) ≡ ok job
unfolding decode_job encode_job take_version take_job at_end take_byte take_count
decode-encode_job job h = rw (
  take_string-put job.job_id _ h.job_id,
  take_string-put job.application _ h.application,
  take_string-put job.idempotency_key _ h.idempotency_key,
  take_bytes_fixed-append 32 job.digest _ h.digest,
  take_job_kind-code job.kind _,
  take_target-put job.target _ h.target,
  take_job_state-code job.state _,
  take_u64-put job.created _ h.created,
  take_u64-put job.changed _ h.changed,
  take_string-put job.last_result _ h.last_result,
  take_optional_string-put job.forward_inbound _ h.forward_inbound,
  take_u64-put (length job.deliveries) _ h.delivery_count,
  take_all-put IsStorableCopy put_delivery take_delivery take_delivery-put job.deliveries _
      h.deliveries,
  take_u64-put (length job.sources) _ h.source_count,
  take_all-put IsStorableSource put_source take_source take_source-put job.sources _ h.sources,
  take_local_identity-put job.deliveries job.local_identity h.local_identity,
)
