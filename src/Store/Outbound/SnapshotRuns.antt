-- ===== src/Store/Outbound/SnapshotRuns.antt =====
-- A poll that may take two copies of one job.
use tith.Base.{ℕ, ◌+◌, ◌≡◌, refl, arith, false, List, [], ◌∷◌, length, get_elem?, none, some, ok}
use tith.Wire.Cursor.{is_utf8}
use tith.Store.Types.{Text, JobKind, JobState, DeliveryRecord, OutboundJob, DeliveryClaim}
use tith.Store.JobCodec.{encode_job}
use tith.Store.JobCodes.{state_code}
use tith.Store.JobCodec.Parts.{IsStorableCopy}
use tith.Store.JobCodec.RoundTrip.{IsStorable}
use tith.Store.Table.{Entries, put, Db}
use tith.Store.Events.{
  append_event, encode_event, number_after, parse_u64, parse_digits, is_digit, decimal_from,
}
use tith.Store.Outbound.{claim_job}
use tith.Store.Outbound.Operations.{Selected, query, save, claim_selected}
use tith.Store.Outbound.Snapshot.{held_copies, sort_selected, claim_each, claim_each-overwrites}
use tith.Store.Outbound.Sample.{
  entries_tables, waiting, first, waiting-IsStorable, first-IsStorable,
}

abbrev waiting_2 : DeliveryRecord
waiting_2 = record waiting { index = 2 }

abbrev twin : OutboundJob
twin = record first { kind = JobKind.echo_mail; deliveries = waiting ∷ waiting_2 ∷ [] }

abbrev one : Selected
one = record { job = twin; position = 0; copy = waiting }

abbrev two : Selected
two = record { job = twin; position = 1; copy = waiting_2 }

-- Both copies are for the identity that polls.
held_test : sort_selected (held_copies (98 ∷ []) none twin 0 twin.deliveries) ≡ one ∷ two ∷ []
unfolding held_copies state_code
held_test = refl

abbrev tokens : ℕ → Text
tokens turn = (65 + turn) ∷ []

abbrev sent_1 : DeliveryRecord
sent_1 = record waiting { state = JobState.active; attempts = 1; worker_token = some (tokens 0) }

abbrev sent_2 : DeliveryRecord
sent_2 = record waiting_2 { state = JobState.active; attempts = 1; worker_token = some (tokens 1) }

abbrev after_1 : OutboundJob
after_1 = record twin {
  state = JobState.active;
  changed = 60;
  deliveries = sent_1 ∷ waiting_2 ∷ [];
}

abbrev after_2 : OutboundJob
after_2 = record twin { state = JobState.active; changed = 60; deliveries = waiting ∷ sent_2 ∷ [] }

-- "J1:1" and "J1:2".
abbrev event : ℕ → Text
event digit = 74 ∷ 49 ∷ 58 ∷ digit ∷ []

abbrev logged : ℕ → List ℕ
logged digit = encode_event (
  twin.application,
  false,
  record {
    event_id = event digit;
    job_id = twin.job_id;
    previous = some JobState.queued;
    current = JobState.active;
    changed = 60;
    last_result = [];
  },
)

abbrev db : Db (Entries (List ℕ))
db = record {
  jobs = (twin.job_id, encode_job twin) ∷ [];
  items = (twin.job_id, 1 ∷ []) ∷ [];
  submissions = [];
  events = [];
}

abbrev db_after : Db (Entries (List ℕ))
db_after = record db {
  jobs = put twin.job_id (encode_job after_2) (put twin.job_id (encode_job after_1) db.jobs);
  events = put (event 50) (logged 50) (put (event 49) (logged 49) []);
}

abbrev claims : List DeliveryClaim
claims =
    record {
      job_id = twin.job_id;
      delivery_index = 1;
      worker_token = tokens 0;
      item = 1 ∷ [];
      delivery = sent_1;
    }
    ∷ record {
      job_id = twin.job_id;
      delivery_index = 2;
      worker_token = tokens 1;
      item = 1 ∷ [];
      delivery = sent_2;
    }
    ∷ []

waiting_2-IsStorable : IsStorableCopy waiting_2
waiting_2-IsStorable = record {
  index = omega arith;
  local_identity = waiting-IsStorable.local_identity;
  next_hop = waiting-IsStorable.next_hop;
  next_hop_key = tt;
  class = waiting-IsStorable.class;
  retry_at = tt;
  attempts = omega arith;
  last_result = waiting-IsStorable.last_result;
  worker_token = tt;
}

twin-IsStorable : IsStorable twin
twin-IsStorable = record {
  job_id = first-IsStorable.job_id;
  application = first-IsStorable.application;
  idempotency_key = first-IsStorable.idempotency_key;
  digest = refl;
  target = first-IsStorable.target;
  local_identity = first-IsStorable.local_identity;
  created = omega arith;
  changed = omega arith;
  last_result = first-IsStorable.last_result;
  forward_inbound = tt;
  delivery_count = omega arith;
  deliveries = (waiting-IsStorable, (waiting_2-IsStorable, tt));
  source_count = omega arith;
  sources = tt;
}

both-claimed : claim_each 60 tokens 0 (one ∷ two ∷ []) db ≡ ok (claims, db_after)
unfolding claim_each claim_selected claim_job save append_event number_after parse_u64 parse_digits
    is_digit decimal_from
both-claimed = refl

claim_each-overwrites_example :
    (length claims ≡ 2)
    × ((after : OutboundJob) × (query twin.job_id db_after ≡ ok after)
        × (get_elem? after.deliveries 0 ≡ get_elem? twin.deliveries 0))
claim_each-overwrites_example =
    claim_each-overwrites 60 tokens twin 0 1 waiting waiting_2 db db_after claims (omega arith)
      (unfold is_utf8 in (refl, omega arith)) twin-IsStorable (omega arith) both-claimed
