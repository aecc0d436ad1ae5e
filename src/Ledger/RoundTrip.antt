-- ===== src/Ledger/RoundTrip.antt =====
-- crates/tith-ledger/src/lib.rs: a stored record and a stored orphan are read back as they were
-- written.
use tith.Base.{
  ℕ, ◌≤◌, ◌≡◌, refl, ◌∙◌, arith, Bool, true, false, List, [], ◌∷◌, ◌++◌, length, append-nil,
  append_assoc, All, Option, none, some, ok,
}
use tith.Wire.Integer.{IsU64}
use tith.Ledger.{
  Text, State, staged, published, acknowledged, retired, code, from_code, Object, QuarantineObject,
  Orphan, Record,
}
use tith.Ledger.Bytes.{to_le, take_byte, u32_max, push_string, take_string, push_bytes, push_all}
use tith.Ledger.Codec.{
  take_counted, push_object, encode, complete, take_state, take_object, take_cleanup, take_record,
  decode, push_quarantined, push_notice, encode_orphan, take_quarantined, take_flag, take_marked,
  take_notice, take_orphan, decode_orphan,
}
use tith.Ledger.Pieces.{
  IsText, IsLongText, from-to_le, take_fixed-append, take_fixed-to_le, u32_length-small,
  take-length, take_string-push, take_bytes-push, take_text-push, take_all-push,
}

abbrev pub IsStorableObject : Object → Type 0
IsStorableObject object = IsText object.name × IsU64 object.digest

-- What the stored form of a record needs: texts and lists whose length fits into 32 bits, a hash of
-- 32 bytes, digests of 64 bits.
pub record IsStorable (value : Record) : Type 0 where
  pub inbound_id : IsText value.inbound_id
  pub payload_hash : length value.payload_hash ≡ 32
  pub object_count : length value.objects ≤ u32_max
  pub objects : All IsStorableObject value.objects
  pub note : IsText value.note
  pub claim_token : IsText value.claim_token
  pub distribution : IsText value.distribution
  pub forward_job : IsText value.forward_job
  pub cleanup_count : length value.cleanup ≤ u32_max
  pub cleanup : All IsText value.cleanup

abbrev pub IsStorableQuarantined : QuarantineObject → Type 0
IsStorableQuarantined object = IsLongText object.name × IsU64 (length object.contents)

-- Only a notice that is there can be published.
abbrev pub IsStorableNotice : Option QuarantineObject → Bool → Type 0
IsStorableNotice none notice_published = notice_published ≡ false
IsStorableNotice (some notice) notice_published = IsStorableQuarantined notice

pub record IsStorableOrphan (value : Orphan) : Type 0 where
  pub inbound_id : IsLongText value.inbound_id
  pub authentication : IsLongText value.authentication
  pub reason : IsLongText value.reason
  pub payload : IsU64 (length value.payload)
  pub object_count : IsU64 (length value.objects)
  pub objects : All IsStorableQuarantined value.objects
  pub notice : IsStorableNotice value.notice value.notice_published

take_state-code :
    (state : State) (rest : List ℕ) → take_state (code state ∷ rest) ≡ some (state, rest)
unfolding take_state code from_code take_byte
take_state-code staged rest = refl
take_state-code published rest = refl
take_state-code acknowledged rest = refl
take_state-code retired rest = refl

take_object-push :
    (object : Object) (rest : List ℕ)
    → IsStorableObject object
    → take_object (push_object object ++ rest) ≡ some (object, rest)
unfolding take_object push_object
take_object-push object rest (name, digest) = rw (
  append_assoc (push_string object.name) (to_le 8 object.digest) rest,
  take_string-push object.name _ name,
  take_fixed-to_le 8 object.digest rest,
  from-to_le 8 object.digest (omega arith),
)

cleanup-starts :
    (n : ℕ) (rest : List ℕ)
    → take_cleanup (to_le 4 n ++ rest) ≡ take_counted take_string (to_le 4 n ++ rest)
unfolding take_cleanup to_le
cleanup-starts n rest = refl

take_cleanup-push :
    (paths : List Text)
    → length paths ≤ u32_max
    → All IsText paths
    → take_cleanup (to_le 4 (length paths) ++ push_all push_string paths) ≡ some (paths, [])
unfolding take_counted
take_cleanup-push paths small h =
    cleanup-starts (length paths) (push_all push_string paths)
    ∙ rw
        (
          take_fixed-to_le 4 (length paths) (push_all push_string paths),
          from-to_le 4 (length paths) (omega arith),
          ← append-nil (push_all push_string paths),
          take_all-push IsText push_string take_string take_string-push paths [] h,
        )
        refl

-- A record whose texts are UTF-8, whose texts and lists fit into 32 bits, whose hash has 32 bytes
-- and whose digests are of 64 bits is read back as it was written.
pub decode-encode : (value : Record) → IsStorable value → decode (encode value) ≡ ok value
unfolding decode encode take_record complete
decode-encode value h =
    rw
      (
        u32_length-small (length value.objects) h.object_count,
        take-length value.objects,
        u32_length-small (length value.cleanup) h.cleanup_count,
        take-length value.cleanup,
        take_state-code value.state _,
        take_fixed-append 32 value.payload_hash _ h.payload_hash,
        take_string-push value.inbound_id _ h.inbound_id,
        take_string-push value.note _ h.note,
        take_string-push value.claim_token _ h.claim_token,
        take_string-push value.distribution _ h.distribution,
        take_string-push value.forward_job _ h.forward_job,
        take_fixed-to_le 4 (length value.objects) _,
        from-to_le 4 (length value.objects) (omega (arith, h.object_count)),
        take_all-push IsStorableObject push_object take_object take_object-push value.objects _
            h.objects,
        take_cleanup-push value.cleanup h.cleanup_count h.cleanup,
      )
      refl

take_quarantined-push :
    (object : QuarantineObject) (rest : List ℕ)
    → IsStorableQuarantined object
    → take_quarantined (push_quarantined object ++ rest) ≡ some (object, rest)
unfolding take_quarantined push_quarantined
take_quarantined-push object rest (name, contents) = rw (
  append_assoc (push_bytes object.name) (push_bytes object.contents) rest,
  take_text-push object.name _ name,
  take_bytes-push object.contents rest contents,
)

take_notice-push :
    (notice : Option QuarantineObject) (notice_published : Bool)
    → IsStorableNotice notice notice_published
    → take_notice (push_notice notice notice_published) ≡ some ((notice, notice_published), [])
unfolding take_notice push_notice take_marked take_byte take_flag
take_notice-push none notice_published h = rw h
take_notice-push (some notice) true h = rw (take_quarantined-push notice (1 ∷ []) h)
take_notice-push (some notice) false h = rw (take_quarantined-push notice (0 ∷ []) h)

-- An orphan whose texts are UTF-8 and whose texts and lists fit into 64 bits is read back as it was
-- written, if it has a notice wherever its notice is published.
pub decode_orphan-encode_orphan :
    (value : Orphan) → IsStorableOrphan value → decode_orphan (encode_orphan value) ≡ ok value
unfolding decode_orphan encode_orphan take_orphan complete
decode_orphan-encode_orphan value h =
    rw
      (
        take_text-push value.inbound_id _ h.inbound_id,
        take_text-push value.authentication _ h.authentication,
        take_text-push value.reason _ h.reason,
        take_bytes-push value.payload _ h.payload,
        take_fixed-to_le 8 (length value.objects) _,
        from-to_le 8 (length value.objects) (omega (arith, h.object_count)),
        take_all-push IsStorableQuarantined push_quarantined take_quarantined take_quarantined-push
            value.objects _ h.objects,
        take_notice-push value.notice value.notice_published h.notice,
      )
      refl
