-- ===== src/Ledger/Reads.antt =====
-- crates/tith-ledger/src/lib.rs: what the ledger answers is what its book has, also after any
-- commands; and an orphan that is staged again is known.
use tith.Base.{
  ℕ, ◌≡◌, refl, ap, ◌∙◌, Bool, true, nat_eq, list_eq, if◌then◌else◌, List, [], length, ltb, arith,
  ◌∷◌, All, Option-cases, Result, ok, err, inl, inr,
}
use tith.Store.Table.{Entries, find, encoded, Tables}
use tith.Ledger.{
  State, staged, published, acknowledged, retired, code, Text, LedgerError, Record, is_unfinished,
  owes_cleanup,
}
use tith.Ledger.Codec.{encode, decode, encode_orphan, decode_orphan}
use tith.Ledger.RoundTrip.{IsStorable, IsStorableOrphan, decode-encode, decode_orphan-encode_orphan}
use tith.Ledger.Operations.{
  Counters, LedgerDb, decode_each, get, orphan, orphans, unfinished, pending_cleanup,
}
use tith.Ledger.Book.{Book, Command, perform, IsStorableCommand, run, Represents, Agrees}
use tith.Ledger.Storable.{Kept, Kept-find}
use tith.Ledger.Refines.{get-encoded, run-perform}

-- The values of a table that pass a test, in the order of their keys.
abbrev pub values : {V : Type 0} → (V → Bool) → Entries V → List V
values keep [] = []
values keep ((key, value) ∷ entries) =
    let rest = values keep entries in if keep value then value ∷ rest else rest

decode_each-encoded :
    {V : Type 0} (P : V → Type 0) (enc : V → List ℕ) (dec : List ℕ → Result LedgerError V)
    (keep : V → Bool)
    → ((value : V) → P value → dec (enc value) ≡ ok value)
    → (entries : Entries V) → Kept P entries
    → decode_each dec keep (encoded enc entries) ≡ ok (values keep entries)
unfolding decode_each
decode_each-encoded P enc dec keep reads [] h = refl
decode_each-encoded P enc dec keep reads ((key, value) ∷ entries) (p, ps) =
    rw (reads value p, decode_each-encoded P enc dec keep reads entries ps) refl

-- A state before the claim is resolved, in the order of the states.
abbrev pub is_before_acknowledged : State → Bool
is_before_acknowledged state = ltb (code state) 3

abbrev pub has_paths : Record → Bool
has_paths record_of = ltb 0 (length record_of.cleanup)

same_unfinished : (state : State) → is_unfinished state ≡ is_before_acknowledged state
unfolding is_unfinished code
same_unfinished staged = refl
same_unfinished published = refl
same_unfinished acknowledged = refl
same_unfinished retired = refl

same_paths : (paths : List Text) → owes_cleanup paths ≡ ltb 0 (length paths)
unfolding owes_cleanup
same_paths [] = refl
same_paths (path ∷ paths) = ground arith

values-same :
    {V : Type 0} (first second : V → Bool)
    → ((value : V) → first value ≡ second value)
    → (entries : Entries V) → values first entries ≡ values second entries
values-same first second same [] = refl
values-same first second same ((key, value) ∷ entries) =
    rw (same value, values-same first second same entries) refl

-- A command that fails leaves the book and the database as they are.
abbrev or_same : {A : Type 0} → A → Result LedgerError A → A
or_same before (ok after) = after
or_same before (err e) = before

abbrev pub perform_all : List Command → Book → Book
perform_all [] book = book
perform_all (command ∷ commands) book = perform_all commands (or_same book (perform command book))

module _ {T C : Type 0} ⦃tables : Tables T⦄ ⦃counters : Counters C⦄ where
  abbrev pub run_all : List Command → LedgerDb T C → LedgerDb T C
  run_all [] db = db
  run_all (command ∷ commands) db = run_all commands (or_same db (run command db))

  or_same-Represents :
      (db : LedgerDb T C) (book : Book) (due : Result LedgerError Book)
      (out : Result LedgerError (LedgerDb T C))
      → Represents db book
      → Agrees due out
      → Represents (or_same db out) (or_same book due)
  or_same-Represents db book (err e) out h agrees = rw agrees h
  or_same-Represents db book (ok book') out h (db', done, h') = rw done h'

  run_all-Represents :
      (commands : List Command) (db : LedgerDb T C) (book : Book)
      → All IsStorableCommand commands
      → Represents db book
      → Represents (run_all commands db) (perform_all commands book)
  run_all-Represents [] db book fine h = h
  run_all-Represents (command ∷ commands) db book (c, cs) h = run_all-Represents commands _ _ cs (
      or_same-Represents db book (perform command book) (run command db) h
        (run-perform command db book c h))

  reads_record :
      (db : LedgerDb T C) (book : Book) (inbound_id : Text)
      → Represents db book
      → get inbound_id db ≡ ok (find inbound_id book.records)
  unfolding get
  reads_record db book inbound_id h = elim (Option-cases (find inbound_id book.records)) [
    | inl absent ↦
        rw (get, get-encoded encode db.inbound book.records h.inbound inbound_id, absent) refl
    | inr (value, found) ↦
        rw
          (
            get,
            get-encoded encode db.inbound book.records h.inbound inbound_id,
            found,
            decode-encode value
                (Kept-find IsStorable inbound_id book.records value h.records found),
          )
          refl
  ]

  reads_orphan :
      (db : LedgerDb T C) (book : Book) (inbound_id : Text)
      → Represents db book
      → orphan inbound_id db ≡ ok (find inbound_id book.orphans)
  unfolding orphan
  reads_orphan db book inbound_id h = elim (Option-cases (find inbound_id book.orphans)) [
    | inl absent ↦
        rw
          (
            orphan,
            get-encoded encode_orphan db.quarantine book.orphans h.quarantine inbound_id,
            absent,
          )
          refl
    | inr (value, found) ↦
        rw
          (
            orphan,
            get-encoded encode_orphan db.quarantine book.orphans h.quarantine inbound_id,
            found,
            decode_orphan-encode_orphan value
                (Kept-find IsStorableOrphan inbound_id book.orphans value h.orphans found),
          )
          refl
  ]

  -- Whatever is done with the ledger, it answers for its book. On tables with the documented
  -- behaviour that represent a book of what can be stored, after any calls that change the ledger
  -- with what can be stored, failing ones included, get and orphan find the entry that the book has
  -- after the same commands, orphans lists all of its orphans, unfinished the records whose state
  -- comes before acknowledged, and pending_cleanup those with a path to remove, in the order of
  -- their names.
  pub run_all-answers :
      (commands : List Command) (db : LedgerDb T C) (book : Book) (inbound_id : Text)
      → All IsStorableCommand commands
      → Represents db book
      → (get inbound_id (run_all commands db)
          ≡ ok (find inbound_id (perform_all commands book).records))
        × (orphan inbound_id (run_all commands db)
            ≡ ok (find inbound_id (perform_all commands book).orphans))
        × (orphans (run_all commands db)
            ≡ ok (values (λ _. true) (perform_all commands book).orphans))
        × (unfinished (run_all commands db)
            ≡ ok (values (λ r. is_before_acknowledged r.state) (perform_all commands book).records))
        × (pending_cleanup (run_all commands db)
            ≡ ok (values has_paths (perform_all commands book).records))
  unfolding orphans unfinished pending_cleanup
  run_all-answers commands db book inbound_id fine h0 =
      let h = run_all-Represents commands db book fine h0 in
      let records = decode_each-encoded IsStorable encode decode in
      (
        reads_record _ _ inbound_id h,
        reads_orphan _ _ inbound_id h,
        rw h.quarantine (
            decode_each-encoded IsStorableOrphan encode_orphan decode_orphan _
              decode_orphan-encode_orphan _ h.orphans),
        rw h.inbound (
            records _ decode-encode _ h.records
            ∙ ap ok (values-same _ _ (λ (r : Record). same_unfinished r.state) _)),
        rw h.inbound (
            records _ decode-encode _ h.records
            ∙ ap ok (values-same _ _ (λ (r : Record). same_paths r.cleanup) _)),
      )
