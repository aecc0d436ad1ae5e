-- ===== src/Store/Events/Codec.antt =====
-- crates/tith-store/src/outbound.rs: a stored event is read back as it was written.
use tith.Base.{
  ℕ, ◌≡◌, refl, [], ◌∷◌, ◌++◌, List, append-nil, Bool, true, false, Option, none, some, ok,
}
use tith.Wire.Integer.{IsU64}
use tith.Store.Types.{Text, JobState}
use tith.Store.Bytes.{take_byte, put_string, take_string, put_optional, take_optional}
use tith.Store.Bytes.Reading.{IsText, take_u64-put, take_string-put, take_optional-put}
use tith.Store.JobCodec.{at_end}
use tith.Store.JobCodes.{state_code, take_job_state}
use tith.Store.JobCodec.Enums.{take_job_state-code}
use tith.Store.Events.{Entry, put_flag, take_flag, encode_event, take_event, decode_event}

pub record IsStorableEvent (entry : Entry) : Type 0 where
  pub application : IsText entry.0
  pub event_id : IsText entry.2.event_id
  pub job_id : IsText entry.2.job_id
  pub changed : IsU64 entry.2.changed
  pub last_result : IsText entry.2.last_result

take_flag-put : (flag : Bool) (rest : List ℕ) → take_flag (put_flag flag ++ rest) ≡ ok (flag, rest)
unfolding take_flag put_flag take_byte
take_flag-put false rest = refl
take_flag-put true rest = refl

previous-put :
    (previous : Option JobState) (rest : List ℕ)
    → take_optional take_job_state (put_optional (λ state. state_code state ∷ []) previous ++ rest)
      ≡ ok (previous, rest)
previous-put none rest =
    take_optional-put (λ _. Unit {0}) _ take_job_state (λ a rest h. take_job_state-code a rest) none
      rest tt
previous-put (some state) rest =
    take_optional-put (λ _. Unit {0}) _ take_job_state (λ a rest h. take_job_state-code a rest)
      (some state) rest tt

last_string-put : (s : Text) → IsText s → take_string (put_string s) ≡ ok (s, [])
last_string-put s h = rw (← append-nil (put_string s), take_string-put s [] h)

pub decode-encode_event :
    (entry : Entry) → IsStorableEvent entry → decode_event (encode_event entry) ≡ ok entry
unfolding decode_event encode_event take_event at_end
decode-encode_event entry h = rw (
  take_string-put entry.0 _ h.application,
  take_flag-put entry.1 _,
  take_string-put entry.2.event_id _ h.event_id,
  take_string-put entry.2.job_id _ h.job_id,
  previous-put entry.2.previous _,
  take_job_state-code entry.2.current _,
  take_u64-put entry.2.changed _ h.changed,
  last_string-put entry.2.last_result h.last_result,
)
