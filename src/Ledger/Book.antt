-- ===== src/Ledger/Book.antt =====
-- crates/tith-ledger/src/lib.rs: what the ledger is to its clients, a book of records and orphans
-- under their names, with the commands that change it. There are no bytes here.
use tith.Base.{
  ℕ, ◌≡◌, ◌=?◌, if◌then◌else◌, List, length, ◌≤◌, All, Option, none, some, Result, ok, err, ok_or,
  ◌>>=◌,
}
use tith.Store.Table.{Entries, find, put, encoded, Tables}
use tith.Ledger.{
  Text, LedgerError, corrupt_record, quarantine_exists, State, QuarantineObject, Orphan, Record,
  orphan_eq,
}
use tith.Ledger.Bytes.{u32_max}
use tith.Ledger.Codec.{encode, encode_orphan}
use tith.Ledger.RoundTrip.{IsStorable, IsStorableOrphan}
use tith.Ledger.Pieces.{IsText}
use tith.Ledger.Operations
use tith.Ledger.Operations.{
  Counters, LedgerDb, new_orphan, forward, owe, reach, publish_notice, unpublished,
}

pub record Book : Type 0 where
  pub records : Entries Record
  pub orphans : Entries Orphan

-- The calls that change the ledger.
pub data Command : Type 0 where
  stage : Record → Command
  stage_orphan : Record → Text → List ℕ → List QuarantineObject → Option QuarantineObject → Command
  mark_orphan_notice_published : Text → Command
  advance : Text → State → Command
  record_forward : Text → Text → Command
  record_cleanup : Text → List Text → Command

-- An entry that is there is changed, unless the change fails.
unfoldable pub change_at :
    {V : Type 0} → Text → (V → Result LedgerError V) → Entries V → Result LedgerError (Entries V)
change_at key change entries = do
  value ← ok_or corrupt_record (find key entries)
  changed ← change value
  ok (put key changed entries)

unfoldable pub quarantine : Record → Orphan → Option Orphan → Book → Result LedgerError Book
quarantine record_of orphan none book = ok (record {
  records = put record_of.inbound_id record_of book.records;
  orphans = put record_of.inbound_id orphan book.orphans;
})
quarantine record_of orphan (some existing) book =
    if unpublished existing =? orphan then ok book else err (quarantine_exists record_of.inbound_id)

unfoldable pub with_records : Book → Entries Record → Book
with_records book records = record book { records = records }

unfoldable pub with_orphans : Book → Entries Orphan → Book
with_orphans book orphans = record book { orphans = orphans }

unfoldable pub amend : Text → (Record → Record) → Book → Result LedgerError Book
unfolding change_at
amend inbound_id change book =
    change_at inbound_id (λ record_of. ok (change record_of)) book.records >>= λ records.
    ok (with_records book records)

unfoldable pub perform : Command → Book → Result LedgerError Book
perform (stage record_of) book =
    ok (with_records book (put record_of.inbound_id record_of book.records))
perform (stage_orphan record_of authentication payload objects notice) book =
    quarantine record_of (new_orphan record_of authentication payload objects notice)
      (find record_of.inbound_id book.orphans) book
perform (mark_orphan_notice_published inbound_id) book =
    change_at inbound_id publish_notice book.orphans >>= λ orphans. ok (with_orphans book orphans)
perform (advance inbound_id state) book = amend inbound_id (reach state) book
perform (record_forward inbound_id job_id) book = amend inbound_id (forward job_id) book
perform (record_cleanup inbound_id paths) book = amend inbound_id (owe paths) book

-- What a command writes can be stored.
abbrev pub IsStorableCommand : Command → Type 0
IsStorableCommand (stage record_of) = IsStorable record_of
IsStorableCommand (stage_orphan record_of authentication payload objects notice) =
    IsStorable record_of
    × IsStorableOrphan (new_orphan record_of authentication payload objects notice)
IsStorableCommand (mark_orphan_notice_published inbound_id) = Unit
IsStorableCommand (advance inbound_id state) = Unit
IsStorableCommand (record_forward inbound_id job_id) = IsText job_id
IsStorableCommand (record_cleanup inbound_id paths) = (length paths ≤ u32_max) × All IsText paths

module _ {T C : Type 0} ⦃tables : Tables T⦄ ⦃counters : Counters C⦄ where
  -- The call of the ledger.
  unfoldable pub run : Command → LedgerDb T C → Result LedgerError (LedgerDb T C)
  run (stage record_of) db = ok (Operations.stage record_of db)
  run (stage_orphan record_of authentication payload objects notice) db =
      Operations.stage_orphan record_of authentication payload objects notice db
  run (mark_orphan_notice_published inbound_id) db =
      Operations.mark_orphan_notice_published inbound_id db
  run (advance inbound_id state) db = Operations.advance inbound_id state db
  run (record_forward inbound_id job_id) db = Operations.record_forward inbound_id job_id db
  run (record_cleanup inbound_id paths) db = Operations.record_cleanup inbound_id paths db

  -- The database holds the encoded form of a book that can be stored.
  pub record Represents (db : LedgerDb T C) (book : Book) : Type 0 where
    pub inbound : tables.iter db.inbound ≡ encoded encode book.records
    pub quarantine : tables.iter db.quarantine ≡ encoded encode_orphan book.orphans
    pub records : All (λ (entry : Text × Record). IsStorable entry.1) book.records
    pub orphans : All (λ (entry : Text × Orphan). IsStorableOrphan entry.1) book.orphans

  -- The same error, or a database that represents the book that is due.
  abbrev pub Agrees : Result LedgerError Book → Result LedgerError (LedgerDb T C) → Type 0
  Agrees (err e) out = out ≡ err e
  Agrees (ok book) out = (db : LedgerDb T C) × (out ≡ ok db) × Represents db book
