-- ===== src/Ledger/Runs.antt =====
-- The ledger at concrete values.
use tith.Base.{
  ℕ, ◌≡◌, refl, arith, true, ◌=?◌, nat_eq, list_eq, if◌then◌else◌, List, [], ◌∷◌, Option, none,
  some, ok,
}
use tith.Store.KeyPin.{no_key}
use tith.Store.Table.{Entries, find, put, Tables}
use tith.Wire.Cursor.{is_utf8}
use tith.Ledger.{Text, staged, published, QuarantineObject, Record}
use tith.Ledger.Codec.{encode, decode, encode_orphan, decode_orphan}
use tith.Ledger.RoundTrip.{IsStorable, IsStorableOrphan, decode-encode, decode_orphan-encode_orphan}
use tith.Ledger.Operations.{
  Counters, LedgerDb, new_orphan, stage_new, stage_orphan, get, orphan, orphans, unfinished,
  pending_cleanup,
}
use tith.Ledger.Book.{Book, Command, perform, run, Represents, Agrees}
use tith.Ledger.Refines.{run-perform}
use tith.Ledger.Reads.{
  values, is_before_acknowledged, has_paths, perform_all, run_all, run_all-answers,
}
use tith.Ledger.Again.{stage_orphan-stage_orphan}

instance abbrev ledger_tables : Tables (Entries (List ℕ))
ledger_tables = record {
  get = find;
  insert = put;
  iter = λ table. table;
  get-iter = λ key table. refl;
  iter-insert = λ key value table. refl;
}

-- The last value that was inserted under a name.
instance abbrev counting : Counters (Text → Option ℕ)
counting = record {
  value = λ name table. table name;
  insert = λ name n table other. if name =? other then some n else table other;
  value-insert = λ name n table other. refl;
}

abbrev Contents : Type 0
Contents = LedgerDb (Entries (List ℕ)) (Text → Option ℕ)

abbrev no_items : Contents
no_items = record { inbound = []; quarantine = []; counter = λ name. none }

abbrev no_book : Book
no_book = record { records = []; orphans = [] }

abbrev staged_item : Record
staged_item = record {
  inbound_id = b'i' ∷ [];
  payload_hash = no_key;
  state = staged;
  objects = record { name = b'p' ∷ []; digest = 9 } ∷ [];
  note = [];
  claim_token = b't' ∷ [];
  distribution = [];
  forward_job = [];
  cleanup = [];
}

abbrev notice : QuarantineObject
notice = record { name = b'n' ∷ []; contents = 1 ∷ 2 ∷ [] }

staged_item-IsStorable : IsStorable staged_item
unfolding is_utf8
staged_item-IsStorable = record {
  inbound_id = (refl, omega arith);
  payload_hash = refl;
  object_count = omega arith;
  objects = (((refl, omega arith), omega arith), tt);
  note = (refl, omega arith);
  claim_token = (refl, omega arith);
  distribution = (refl, omega arith);
  forward_job = (refl, omega arith);
  cleanup_count = omega arith;
  cleanup = tt;
}

orphan-IsStorable : IsStorableOrphan (new_orphan staged_item [] (5 ∷ []) [] (some notice))
unfolding is_utf8 new_orphan
orphan-IsStorable = record {
  inbound_id = (refl, omega arith);
  authentication = (refl, omega arith);
  reason = (refl, omega arith);
  payload = omega arith;
  object_count = omega arith;
  objects = tt;
  notice = ((refl, omega arith), omega arith);
}

decode-encode_example : decode (encode staged_item) ≡ ok staged_item
decode-encode_example = decode-encode staged_item staged_item-IsStorable

decode_orphan-encode_orphan_example :
    decode_orphan (encode_orphan (new_orphan staged_item [] (5 ∷ []) [] (some notice)))
    ≡ ok (new_orphan staged_item [] (5 ∷ []) [] (some notice))
decode_orphan-encode_orphan_example =
    decode_orphan-encode_orphan (new_orphan staged_item [] (5 ∷ []) [] (some notice))
      orphan-IsStorable

nothing : Represents no_items no_book
nothing = record { inbound = refl; quarantine = refl; records = tt; orphans = tt }

run-perform_example :
    Agrees (perform (Command.stage staged_item) no_book) (run (Command.stage staged_item) no_items)
run-perform_example =
    run-perform (Command.stage staged_item) no_items no_book staged_item-IsStorable nothing

abbrev commands : List Command
commands =
    Command.stage staged_item
    ∷ Command.advance (b'x' ∷ []) published
    ∷ Command.advance (b'i' ∷ []) published
    ∷ []

run_all-answers_example :
    (get (b'i' ∷ []) (run_all commands no_items)
      ≡ ok (find (b'i' ∷ []) (perform_all commands no_book).records))
    × (orphan (b'i' ∷ []) (run_all commands no_items)
        ≡ ok (find (b'i' ∷ []) (perform_all commands no_book).orphans))
    × (orphans (run_all commands no_items)
        ≡ ok (values (λ _. true) (perform_all commands no_book).orphans))
    × (unfinished (run_all commands no_items)
        ≡ ok (values (λ r. is_before_acknowledged r.state) (perform_all commands no_book).records))
    × (pending_cleanup (run_all commands no_items)
        ≡ ok (values has_paths (perform_all commands no_book).records))
run_all-answers_example =
    run_all-answers commands no_items no_book (b'i' ∷ []) (staged_item-IsStorable, (tt, (tt, tt)))
      nothing

abbrev orphaned : Contents
orphaned = record {
  inbound = put (b'i' ∷ []) (encode staged_item) [];
  quarantine =
      put (b'i' ∷ []) (encode_orphan (new_orphan staged_item [] (5 ∷ []) [] (some notice))) [];
  counter = λ name. none;
}

run_orphan : stage_orphan staged_item [] (5 ∷ []) [] (some notice) no_items ≡ ok orphaned
unfolding stage_orphan stage_new
run_orphan = refl

stage_orphan-stage_orphan_example :
    stage_orphan staged_item [] (5 ∷ []) [] (some notice) orphaned ≡ ok orphaned
stage_orphan-stage_orphan_example =
    stage_orphan-stage_orphan staged_item [] (5 ∷ []) [] (some notice) no_items orphaned
      orphan-IsStorable run_orphan
