-- ===== src/Ledger/Refines.antt =====
-- crates/tith-ledger/src/lib.rs: the calls of the ledger do what the commands do to the book, and
-- what is read is what the book has.
use tith.Base.{
  ℕ, ◌≡◌, refl, ap, ◌∙◌, Bool-cases, ◌=?◌, nat_eq, list_eq, List, Option-cases, Result-cases, inl,
  inr,
}
use tith.Store.Table.{Entries, find, put, encoded, Tables}
use tith.Store.Table.Entries.{map_some, find-encoded, put-encoded}
use tith.Ledger.{Text, Orphan, Record, orphan_eq}
use tith.Ledger.Codec.{encode, encode_orphan}
use tith.Ledger.RoundTrip.{IsStorable, IsStorableOrphan, decode-encode, decode_orphan-encode_orphan}
use tith.Ledger.Operations
use tith.Ledger.Operations.{
  Counters, LedgerDb, new_orphan, forward, owe, reach, publish_notice, unpublished, stage_new,
}
use tith.Ledger.Book
use tith.Ledger.Book.{
  Book, Command, change_at, with_records, with_orphans, perform, IsStorableCommand, run, Represents,
  Agrees,
}
use tith.Ledger.Storable.{
  Kept-find, Kept-put, reach-IsStorable, forward-IsStorable, owe-IsStorable,
  publish_notice-IsStorable,
}

-- One table, whose values have an encoding that is read back.
module _ {T V : Type 0} ⦃tables : Tables T⦄ (enc : V → List ℕ) (table : T) (entries : Entries V)
    (holds : tables.iter table ≡ encoded enc entries) where
  pub get-encoded : (key : Text) → tables.get key table ≡ map_some enc (find key entries)
  get-encoded key = tables.get-iter key table ∙ ap (find key) holds ∙ find-encoded enc key entries

  pub insert-encoded :
      (key : Text) (v : V)
      → tables.iter (tables.insert key (enc v) table) ≡ encoded enc (put key v entries)
  insert-encoded key v =
      tables.iter-insert key (enc v) table
      ∙ ap (put key (enc v)) holds
      ∙ put-encoded enc key v entries

module _ {T C : Type 0} ⦃tables : Tables T⦄ ⦃counters : Counters C⦄ where
  amended :
      (inbound_id : Text) (change : Record → Record) (db : LedgerDb T C) (book : Book)
      → Represents db book
      → ((value : Record) → IsStorable value → IsStorable (change value))
      → Agrees (Book.amend inbound_id change book) (Operations.amend inbound_id change db)
  unfolding Book.amend Operations.amend change_at with_records
  amended inbound_id change db book h keeps = elim (Option-cases (find inbound_id book.records)) [
    | inl absent ↦ rw (get-encoded encode db.inbound book.records h.inbound inbound_id, absent) refl
    | inr (value, found) ↦
        let storable = Kept-find IsStorable inbound_id book.records value h.records found in
        rw
          (
            get-encoded encode db.inbound book.records h.inbound inbound_id,
            found,
            decode-encode value storable,
          )
          (
            record db { inbound = tables.insert inbound_id (encode (change value)) db.inbound },
            refl,
            record {
              inbound =
                  insert-encoded encode db.inbound book.records h.inbound inbound_id (change value);
              quarantine = h.quarantine;
              records =
                  Kept-put IsStorable inbound_id (change value) book.records h.records
                    (keeps value storable);
              orphans = h.orphans;
            },
          )
  ]

  marked :
      (inbound_id : Text) (db : LedgerDb T C) (book : Book)
      → Represents db book
      → Agrees
          (perform (Command.mark_orphan_notice_published inbound_id) book)
          (Operations.mark_orphan_notice_published inbound_id db)
  unfolding perform Operations.mark_orphan_notice_published change_at with_orphans
  marked inbound_id db book h = elim (Option-cases (find inbound_id book.orphans)) [
    | inl absent ↦
        rw (get-encoded encode_orphan db.quarantine book.orphans h.quarantine inbound_id, absent)
          refl
    | inr (orphan, found) ↦
        let storable = Kept-find IsStorableOrphan inbound_id book.orphans orphan h.orphans found in
        let reads = get-encoded encode_orphan db.quarantine book.orphans h.quarantine inbound_id in
        elim (Result-cases (publish_notice orphan)) [
          | inr (e, fails) ↦
              rw (reads, found, decode_orphan-encode_orphan orphan storable, fails) refl
          | inl (shown, done) ↦
              rw (reads, found, decode_orphan-encode_orphan orphan storable, done)
                (
                  record db {
                    quarantine = tables.insert inbound_id (encode_orphan shown) db.quarantine;
                  },
                  refl,
                  record {
                    inbound = h.inbound;
                    quarantine =
                        insert-encoded encode_orphan db.quarantine book.orphans h.quarantine
                          inbound_id shown;
                    records = h.records;
                    orphans =
                        Kept-put IsStorableOrphan inbound_id shown book.orphans h.orphans
                          (publish_notice-IsStorable orphan shown storable done);
                  },
                )
        ]
  ]

  quarantined :
      (record_of : Record) (orphan : Orphan) (db : LedgerDb T C) (book : Book)
      → Represents db book
      → IsStorable record_of
      → IsStorableOrphan orphan
      → Agrees
          (Book.quarantine record_of orphan (find record_of.inbound_id book.orphans) book)
          (stage_new record_of orphan (tables.get record_of.inbound_id db.quarantine) db)
  unfolding Book.quarantine stage_new
  quarantined record_of orphan db book h fine fine' =
      let id = record_of.inbound_id in
      let reads = get-encoded encode_orphan db.quarantine book.orphans h.quarantine id in
      elim (Option-cases (find id book.orphans)) [
        | inl absent ↦
            rw (reads, absent)
              (
                _,
                refl,
                record {
                  inbound = insert-encoded encode db.inbound book.records h.inbound id record_of;
                  quarantine =
                      insert-encoded encode_orphan db.quarantine book.orphans h.quarantine id
                        orphan;
                  records = Kept-put IsStorable id record_of book.records h.records fine;
                  orphans = Kept-put IsStorableOrphan id orphan book.orphans h.orphans fine';
                },
              )
        | inr (existing, found) ↦
            let storable = Kept-find IsStorableOrphan id book.orphans existing h.orphans found in
            elim (Bool-cases (unpublished existing =? orphan)) [
              | inl same ↦
                  rw (reads, found, decode_orphan-encode_orphan existing storable, same)
                    (db, refl, h)
              | inr differ ↦
                  rw (reads, found, decode_orphan-encode_orphan existing storable, differ) refl
            ]
      ]

  -- The ledger does what its book says. On tables with the documented behaviour that represent a
  -- book of records and orphans which can be stored, each call that changes the ledger with something
  -- that can be stored fails with the error of the command on the book, or leaves a database that
  -- represents the book that the command leaves.
  pub run-perform :
      (command : Command) (db : LedgerDb T C) (book : Book)
      → IsStorableCommand command
      → Represents db book
      → Agrees (perform command book) (run command db)
  unfolding perform run with_records Operations.stage
  run-perform (Command.stage record_of) db book fine h = (
    _,
    refl,
    record {
      inbound =
          insert-encoded encode db.inbound book.records h.inbound record_of.inbound_id record_of;
      quarantine = h.quarantine;
      records = Kept-put IsStorable record_of.inbound_id record_of book.records h.records fine;
      orphans = h.orphans;
    },
  )
  run-perform (Command.stage_orphan record_of authentication payload objects notice) db book fine
        h =
      unfold Operations.stage_orphan in quarantined record_of _ db book h fine.0 fine.1
  run-perform (Command.mark_orphan_notice_published inbound_id) db book fine h =
      marked inbound_id db book h
  run-perform (Command.advance inbound_id state) db book fine h =
      unfold Operations.advance in
      amended inbound_id (reach state) db book h (reach-IsStorable state)
  run-perform (Command.record_forward inbound_id job_id) db book fine h =
      unfold Operations.record_forward in
      amended inbound_id (forward job_id) db book h
        (λ value fine'. forward-IsStorable job_id value fine fine')
  run-perform (Command.record_cleanup inbound_id paths) db book fine h =
      unfold Operations.record_cleanup in
      amended inbound_id (owe paths) db book h
        (λ value fine'. owe-IsStorable paths value fine.0 fine.1 fine')
