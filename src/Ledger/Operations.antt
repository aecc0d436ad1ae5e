-- ===== src/Ledger/Operations.antt =====
-- crates/tith-ledger/src/lib.rs: the operations of `Ledger`. An operation is one transaction: it
-- returns the database as `commit` leaves it, and an error leaves the database as it was.
use tith.Base.{
  ℕ, Bool, true, false, ◌+◌, ◌%◌, ◌^◌, ◌=?◌, nat_eq, list_eq, if◌then◌else◌, List, [], ◌∷◌, Option,
  none, some, Result, ok, err, ok_or, ◌>>=◌, ◌≡◌,
}
use tith.Base.Options.{is_some}
use tith.Store.Table.{Entries, Tables}
use tith.Ledger.{
  Text, LedgerError, corrupt_record, quarantine_exists, State, QuarantineObject, Orphan, Record,
  orphan_eq, is_unfinished, owes_cleanup,
}
use tith.Ledger.Codec.{encode, decode, encode_orphan, decode_orphan}

-- The table COUNTER, whose values are numbers.
pub record Counters (C : Type 0) : Type 0 where
  pub value : Text → C → Option ℕ
  pub insert : Text → ℕ → C → C
  pub value-insert :
      (name : Text) (n : ℕ) (table : C) (other : Text)
      → value other (insert name n table) ≡ (if name =? other then some n else value other table)

pub record LedgerDb (T C : Type 0) : Type 0 where
  pub inbound : T
  pub quarantine : T
  pub counter : C

unfoldable pub new_orphan :
    Record → Text → List ℕ → List QuarantineObject → Option QuarantineObject → Orphan
new_orphan record_of authentication payload objects notice = record {
  inbound_id = record_of.inbound_id;
  authentication = authentication;
  reason = record_of.note;
  payload = payload;
  objects = objects;
  notice = notice;
  notice_published = false;
}

unfoldable pub forward : Text → Record → Record
forward job_id record_of = record record_of { forward_job = job_id }

unfoldable pub owe : List Text → Record → Record
owe paths record_of = record record_of { cleanup = paths }

unfoldable pub reach : State → Record → Record
reach state record_of = record record_of { state = state }

unfoldable pub publish_notice : Orphan → Result LedgerError Orphan
publish_notice orphan =
    if is_some orphan.notice
    then ok (record orphan { notice_published = true })
    else err corrupt_record

-- The orphan as it is compared with one that is staged again.
unfoldable pub unpublished : Orphan → Orphan
unpublished orphan = record orphan { notice_published = false }

-- The loops of `orphans`, `unfinished` and `pending_cleanup`.
unfoldable pub decode_each :
    {A : Type 0}
    → (List ℕ → Result LedgerError A)
    → (A → Bool)
    → Entries (List ℕ)
    → Result LedgerError (List A)
decode_each decode_value keep [] = ok []
decode_each decode_value keep ((key, value) ∷ entries) = do
  decoded ← decode_value value
  rest ← decode_each decode_value keep entries
  ok (if keep decoded then decoded ∷ rest else rest)

-- `entry.value() + 1` of a u64, which wraps in a build without overflow checks.
unfoldable pub following : Option ℕ → ℕ
following none = 1
following (some n) = (n + 1) % 2 ^ 64

module _ {T C : Type 0} ⦃tables : Tables T⦄ ⦃counters : Counters C⦄ where
  unfoldable pub stage : Record → LedgerDb T C → LedgerDb T C
  stage record_of db = record db {
    inbound = tables.insert record_of.inbound_id (encode record_of) db.inbound;
  }

  -- `stage_orphan`, once the orphan that is there is known.
  unfoldable pub stage_new :
      Record → Orphan → Option (List ℕ) → LedgerDb T C → Result LedgerError (LedgerDb T C)
  stage_new record_of orphan none db = ok (record {
    inbound = tables.insert record_of.inbound_id (encode record_of) db.inbound;
    quarantine = tables.insert record_of.inbound_id (encode_orphan orphan) db.quarantine;
    counter = db.counter;
  })
  stage_new record_of orphan (some value) db = do
    existing ← decode_orphan value
    if unpublished existing =? orphan then ok db else err (quarantine_exists record_of.inbound_id)

  unfoldable pub stage_orphan :
      Record
      → Text
      → List ℕ
      → List QuarantineObject
      → Option QuarantineObject
      → LedgerDb T C
      → Result LedgerError (LedgerDb T C)
  unfolding new_orphan
  stage_orphan record_of authentication payload objects notice db =
      stage_new record_of (new_orphan record_of authentication payload objects notice)
        (tables.get record_of.inbound_id db.quarantine) db

  unfoldable pub mark_orphan_notice_published :
      Text → LedgerDb T C → Result LedgerError (LedgerDb T C)
  mark_orphan_notice_published inbound_id db = do
    value ← ok_or corrupt_record (tables.get inbound_id db.quarantine)
    orphan ← decode_orphan value
    published ← publish_notice orphan
    ok (record db { quarantine = tables.insert inbound_id (encode_orphan published) db.quarantine })

  unfoldable pub amend : Text → (Record → Record) → LedgerDb T C → Result LedgerError (LedgerDb T C)
  amend inbound_id change db = do
    value ← ok_or corrupt_record (tables.get inbound_id db.inbound)
    record_of ← decode value
    ok (record db { inbound = tables.insert inbound_id (encode (change record_of)) db.inbound })

  unfoldable pub advance : Text → State → LedgerDb T C → Result LedgerError (LedgerDb T C)
  unfolding amend
  advance inbound_id state db = amend inbound_id (reach state) db

  unfoldable pub record_forward : Text → Text → LedgerDb T C → Result LedgerError (LedgerDb T C)
  unfolding amend
  record_forward inbound_id job_id db = amend inbound_id (forward job_id) db

  unfoldable pub record_cleanup :
      Text → List Text → LedgerDb T C → Result LedgerError (LedgerDb T C)
  unfolding amend
  record_cleanup inbound_id paths db = amend inbound_id (owe paths) db

  unfoldable pub get : Text → LedgerDb T C → Result LedgerError (Option Record)
  get inbound_id db = elim (tables.get inbound_id db.inbound) [
    | none ↦ ok none
    | some value ↦ decode value >>= λ record_of. ok (some record_of)
  ]

  unfoldable pub orphan : Text → LedgerDb T C → Result LedgerError (Option Orphan)
  orphan inbound_id db = elim (tables.get inbound_id db.quarantine) [
    | none ↦ ok none
    | some value ↦ decode_orphan value >>= λ found. ok (some found)
  ]

  unfoldable pub orphans : LedgerDb T C → Result LedgerError (List Orphan)
  orphans db = decode_each decode_orphan (λ _. true) (tables.iter db.quarantine)

  unfoldable pub unfinished : LedgerDb T C → Result LedgerError (List Record)
  unfinished db =
      decode_each decode (λ record_of. is_unfinished record_of.state) (tables.iter db.inbound)

  unfoldable pub pending_cleanup : LedgerDb T C → Result LedgerError (List Record)
  pending_cleanup db =
      decode_each decode (λ record_of. owes_cleanup record_of.cleanup) (tables.iter db.inbound)

  unfoldable pub next_identity : Text → LedgerDb T C → ℕ × LedgerDb T C
  unfolding following
  next_identity name db =
      let value = following (counters.value name db.counter) in
      (value, record db { counter = counters.insert name value db.counter })
