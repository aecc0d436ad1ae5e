-- ===== src/Ledger/Codec.antt =====
-- crates/tith-ledger/src/lib.rs: the stored form of a record and of an orphan.
use tith.Base.{
  ℕ, Bool, true, false, ◌==◌, if◌then◌else◌, List, [], ◌∷◌, ◌++◌, length, take, Option, none, some,
  Result, ok, err,
}
use tith.Ledger.{
  Text, LedgerError, corrupt_record, State, code, from_code, Object, QuarantineObject, Orphan,
  Record,
}
use tith.Ledger.Bytes.{
  Taker, ◌>>=◌, return, fail, to_le, from_le, take_fixed, take_byte, u32_length, push_string,
  take_string, push_bytes, take_bytes, take_text, push_all, take_all,
}

unfoldable pub push_object : Object → List ℕ
push_object object = push_string object.name ++ to_le 8 object.digest

unfoldable pub encode : Record → List ℕ
encode record_of =
    code record_of.state
    ∷ (record_of.payload_hash
        ++ (push_string record_of.inbound_id
            ++ (push_string record_of.note
                ++ (push_string record_of.claim_token
                    ++ (push_string record_of.distribution
                        ++ (push_string record_of.forward_job
                            ++ (to_le 4 (u32_length (length record_of.objects))
                                ++ (push_all push_object (
                                      take (u32_length (length record_of.objects))
                                        record_of.objects)
                                    ++ (to_le 4 (u32_length (length record_of.cleanup))
                                        ++ push_all push_string (
                                            take (u32_length (length record_of.cleanup))
                                              record_of.cleanup))))))))))

-- `input.is_empty().then_some(…)`, behind `?` and `ok_or`.
unfoldable pub complete : {A : Type 0} → Option (A × List ℕ) → Result LedgerError A
complete none = err corrupt_record
complete (some (value, [])) = ok value
complete (some (value, byte ∷ input)) = err corrupt_record

unfoldable pub take_state : Taker State
take_state = do byte ← take_byte; elim (from_code byte) [ none ↦ fail | some state ↦ return state ]

unfoldable pub take_object : Taker Object
take_object = do
  name ← take_string
  digest ← take_fixed 8
  return (record { name = name; digest = from_le digest })

-- A count and as many values.
unfoldable pub take_counted : {A : Type 0} → Taker A → Taker (List A)
take_counted reader = do count ← take_fixed 4; take_all reader (from_le count)

-- A record from before the cleanup obligations ends here.
unfoldable pub take_cleanup : Taker (List Text)
take_cleanup [] = some ([], [])
take_cleanup (byte ∷ input) = take_counted take_string (byte ∷ input)

unfoldable pub take_record : Taker Record
unfolding take_state
take_record = do
  state ← take_state
  payload_hash ← take_fixed 32
  inbound_id ← take_string
  note ← take_string
  claim_token ← take_string
  distribution ← take_string
  forward_job ← take_string
  count ← take_fixed 4
  objects ← take_all take_object (from_le count)
  cleanup ← take_cleanup
  return (record {
    inbound_id = inbound_id;
    payload_hash = payload_hash;
    state = state;
    objects = objects;
    note = note;
    claim_token = claim_token;
    distribution = distribution;
    forward_job = forward_job;
    cleanup = cleanup;
  })

unfoldable pub decode : List ℕ → Result LedgerError Record
unfolding complete
decode input = complete (take_record input)

unfoldable pub push_quarantined : QuarantineObject → List ℕ
push_quarantined object = push_bytes object.name ++ push_bytes object.contents

unfoldable pub push_notice : Option QuarantineObject → Bool → List ℕ
push_notice none notice_published = 0 ∷ []
push_notice (some notice) notice_published =
    1 ∷ (push_quarantined notice ++ (if notice_published then 1 else 0) ∷ [])

unfoldable pub encode_orphan : Orphan → List ℕ
encode_orphan orphan =
    push_bytes orphan.inbound_id
    ++ (push_bytes orphan.authentication
        ++ (push_bytes orphan.reason
            ++ (push_bytes orphan.payload
                ++ (to_le 8 (length orphan.objects)
                    ++ (push_all push_quarantined orphan.objects
                        ++ push_notice orphan.notice orphan.notice_published)))))

unfoldable pub take_quarantined : Taker QuarantineObject
take_quarantined = do
  name ← take_text
  contents ← take_bytes
  return (record { name = name; contents = contents })

unfoldable pub take_flag : Taker Bool
take_flag = do
  byte ← take_byte
  if byte == 0 then return false else if byte == 1 then return true else fail

unfoldable pub take_marked : Taker (Option QuarantineObject × Bool)
take_marked = do
  tag ← take_byte
  if tag == 0
      then return (none, false)
      else if tag == 1
      then (do
        notice ← take_quarantined
        notice_published ← take_flag
        return (some notice, notice_published))
      else fail

-- A record from before the local notices ends here.
unfoldable pub take_notice : Taker (Option QuarantineObject × Bool)
take_notice [] = some ((none, false), [])
take_notice (byte ∷ input) = take_marked (byte ∷ input)

unfoldable pub take_orphan : Taker Orphan
take_orphan = do
  inbound_id ← take_text
  authentication ← take_text
  reason ← take_text
  payload ← take_bytes
  count ← take_fixed 8
  objects ← take_all take_quarantined (from_le count)
  notice ← take_notice
  return (record {
    inbound_id = inbound_id;
    authentication = authentication;
    reason = reason;
    payload = payload;
    objects = objects;
    notice = notice.0;
    notice_published = notice.1;
  })

unfoldable pub decode_orphan : List ℕ → Result LedgerError Orphan
unfolding complete
decode_orphan input = complete (take_orphan input)
