-- ===== src/Ledger/Again.antt =====
-- crates/tith-ledger/src/lib.rs: an orphan that is staged again is known_orphan, also once its notice has
-- been published.
use tith.Base.{
  ℕ, ◌≡◌, refl, sym, ◌∙◌, subst, Bool, true, false, Bool-cases, ◌=?◌, List, Option, none, some,
  Option-cases, ok, inl, inr, >>=-eq-ok, ok-injective,
}
use tith.Base.Options.{is_some}
use tith.Store.Table.{Tables}
use tith.Store.Inbound.Resolved.{get-insert}
use tith.Ledger.{Text, QuarantineObject, Orphan, Record, orphan_eq}
use tith.Ledger.Codec.{encode_orphan, decode_orphan}
use tith.Ledger.RoundTrip.{IsStorableNotice, IsStorableOrphan, decode_orphan-encode_orphan}
use tith.Ledger.Operations.{
  Counters, LedgerDb, new_orphan, unpublished, publish_notice, stage_new, stage_orphan,
  mark_orphan_notice_published,
}

unpublished-publish :
    (orphan shown : Orphan)
    → publish_notice orphan ≡ ok shown
    → unpublished shown ≡ unpublished orphan
unfolding publish_notice unpublished
unpublished-publish orphan shown h = elim (Bool-cases (is_some orphan.notice)) [
  | inl there ↦ rw (← ok-injective (rw there at h)) refl
  | inr absent ↦ cc (rw absent at h)
]

notice-any :
    (notice : Option QuarantineObject) (after : Bool)
    → is_some notice ≡ true
    → IsStorableNotice notice false
    → IsStorableNotice notice after
notice-any none after e h = cc
notice-any (some notice) after e h = h

shown-IsStorable :
    (shown : Orphan)
    → IsStorableOrphan (unpublished shown)
    → is_some shown.notice ≡ true
    → IsStorableOrphan shown
unfolding unpublished
shown-IsStorable shown h there = record {
  inbound_id = h.inbound_id;
  authentication = h.authentication;
  reason = h.reason;
  payload = h.payload;
  object_count = h.object_count;
  objects = h.objects;
  notice = notice-any shown.notice shown.notice_published there h.notice;
}

publish_notice-there :
    (orphan shown : Orphan) → publish_notice orphan ≡ ok shown → is_some shown.notice ≡ true
unfolding publish_notice
publish_notice-there orphan shown h = elim (Bool-cases (is_some orphan.notice)) [
  | inl there ↦ rw (← ok-injective (rw there at h)) there
  | inr absent ↦ cc (rw absent at h)
]

module _ {T C : Type 0} ⦃tables : Tables T⦄ ⦃counters : Counters C⦄ where
  -- The quarantine has this orphan, but for whether its notice is published.
  record Holds (record_of : Record) (orphan : Orphan) (db : LedgerDb T C) : Type 0 where
    value : List ℕ
    existing : Orphan
    there : tables.get record_of.inbound_id db.quarantine ≡ some value
    read : decode_orphan value ≡ ok existing
    same : unpublished existing ≡ orphan

  stage_new-Holds :
      (record_of : Record) (orphan : Orphan) (db db' : LedgerDb T C)
      → IsStorableOrphan orphan
      → unpublished orphan ≡ orphan
      → stage_new record_of orphan (tables.get record_of.inbound_id db.quarantine) db ≡ ok db'
      → Holds record_of orphan db'
  unfolding stage_new
  stage_new-Holds record_of orphan db db' fine fresh h =
      elim (Option-cases (tables.get record_of.inbound_id db.quarantine)) [
        | inl absent ↦ rw (← ok-injective (rw absent at h)) (record {
          value = encode_orphan orphan;
          existing = orphan;
          there = get-insert record_of.inbound_id (encode_orphan orphan) db.quarantine;
          read = decode_orphan-encode_orphan orphan fine;
          same = fresh;
        })
        | inr (value, found) ↦
            let step = >>=-eq-ok (decode_orphan value) _ (rw found at h) in
            elim (Bool-cases (unpublished step.0 =? orphan)) [
              | inl same ↦ rw (← ok-injective (rw same at step.2)) (record {
                value = value;
                existing = step.0;
                there = found;
                read = step.1;
                same = (orphan_eq.beq_iff (unpublished step.0) orphan).0 same;
              })
              | inr differ ↦ cc (rw differ at step.2)
            ]
      ]

  known_orphan :
      (record_of : Record) (orphan : Orphan) (db : LedgerDb T C)
      → Holds record_of orphan db
      → stage_new record_of orphan (tables.get record_of.inbound_id db.quarantine) db ≡ ok db
  unfolding stage_new
  known_orphan record_of orphan db h =
      let same : (unpublished h.existing =? orphan) ≡ true =
        (orphan_eq.beq_iff (unpublished h.existing) orphan).1 h.same in
      rw (h.there, h.read, same) refl

  marked-Holds :
      (record_of : Record) (orphan : Orphan) (db db' : LedgerDb T C)
      → IsStorableOrphan orphan
      → Holds record_of orphan db
      → mark_orphan_notice_published record_of.inbound_id db ≡ ok db'
      → Holds record_of orphan db'
  unfolding mark_orphan_notice_published
  marked-Holds record_of orphan db db' fine held h =
      let step = >>=-eq-ok (publish_notice held.existing) _ (rw (held.there, held.read) at h) in
      let shown = step.0 in
      let same = unpublished-publish held.existing shown step.1 ∙ held.same in
      let storable =
        shown-IsStorable shown (subst IsStorableOrphan (sym same) fine)
          (publish_notice-there held.existing shown step.1) in
      rw (← ok-injective step.2) (record {
        value = encode_orphan shown;
        existing = shown;
        there = get-insert record_of.inbound_id (encode_orphan shown) db.quarantine;
        read = decode_orphan-encode_orphan shown storable;
        same = same;
      })

  module _ (record_of : Record) (authentication : Text) (payload : List ℕ)
      (objects : List QuarantineObject) (notice : Option QuarantineObject) (db db' : LedgerDb T C)
      (fine : IsStorableOrphan (new_orphan record_of authentication payload objects notice))
      (h : stage_orphan record_of authentication payload objects notice db ≡ ok db') where
    -- An orphan that has been staged, whose parts can be stored, is known_orphan when it is staged again, on
    -- tables with the documented behaviour: stage_orphan succeeds and changes nothing.
    pub stage_orphan-stage_orphan :
        stage_orphan record_of authentication payload objects notice db' ≡ ok db'
    unfolding stage_orphan new_orphan unpublished
    stage_orphan-stage_orphan =
        known_orphan record_of _ db' (stage_new-Holds record_of _ db db' fine refl h)

    -- So it is when its notice has been published in between.
    pub stage_orphan-marked :
        (shown : LedgerDb T C)
        → mark_orphan_notice_published record_of.inbound_id db' ≡ ok shown
        → stage_orphan record_of authentication payload objects notice shown ≡ ok shown
    unfolding stage_orphan new_orphan unpublished
    stage_orphan-marked shown marked = known_orphan record_of _ shown (
        marked-Holds record_of _ db' shown fine (stage_new-Holds record_of _ db db' fine refl h)
          marked)
