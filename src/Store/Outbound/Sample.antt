-- ===== src/Store/Outbound/Sample.antt =====
-- A spool of two jobs, stored in tables that are lists.
use tith.Base.{ℕ, refl, arith, List, [], ◌∷◌, none, some}
use tith.Wire.Cursor.{is_utf8}
use tith.Store.Types.{
  JobKind, JobTarget, JobState, DeliveryMode, FailurePolicy, FailureDisposition,
  FailureNotification, NewDelivery, DeliveryRecord, OutboundJob,
}
use tith.Store.JobCodec.{encode_job}
use tith.Store.JobCodes.{state_code}
use tith.Store.JobCodec.Parts.{IsStorableCopy}
use tith.Store.JobCodec.RoundTrip.{IsStorable}
use tith.Store.Table.{Entries, find, put, encoded, Tables, Db}
use tith.Store.Outbound.{aggregate_state}
use tith.Store.Outbound.Sound.{IsSound}
use tith.Store.Outbound.Spool.{Spool, Represents}

instance abbrev pub entries_tables : Tables (Entries (List ℕ))
entries_tables = record {
  get = find;
  insert = put;
  iter = λ table. table;
  get-iter = λ key table. refl;
  iter-insert = λ key value table. refl;
}

abbrev pub policy : FailurePolicy
policy = record {
  disposition = FailureDisposition.dead_letter;
  notification = FailureNotification.sender;
}

abbrev pub waiting : DeliveryRecord
waiting = record {
  index = 1;
  local_identity = 97 ∷ [];
  next_hop = 98 ∷ [];
  next_hop_key = none;
  mode = DeliveryMode.active;
  class = 99 ∷ [];
  retry_at = none;
  policies = (policy, policy);
  state = JobState.queued;
  attempts = 0;
  last_result = [];
  last_failure = none;
  worker_token = none;
}

abbrev pub sent : DeliveryRecord
sent = record waiting { state = JobState.active; attempts = 1; worker_token = some (87 ∷ []) }

abbrev pub first : OutboundJob
first = record {
  job_id = 74 ∷ 49 ∷ [];
  application = 112 ∷ [];
  idempotency_key = 107 ∷ [];
  digest =
      1 ∷ 2 ∷ 3 ∷ 4 ∷ 5 ∷ 6 ∷ 7 ∷ 8 ∷ 1 ∷ 2 ∷ 3 ∷ 4 ∷ 5 ∷ 6 ∷ 7 ∷ 8 ∷ 1 ∷ 2 ∷ 3 ∷ 4 ∷ 5 ∷ 6 ∷ 7 ∷ 8
      ∷ 1 ∷ 2 ∷ 3 ∷ 4 ∷ 5 ∷ 6 ∷ 7 ∷ 8 ∷ [];
  kind = JobKind.net_mail;
  target = JobTarget.destination (98 ∷ []);
  local_identity = 97 ∷ [];
  state = JobState.queued;
  created = 5;
  changed = 5;
  deliveries = waiting ∷ [];
  sources = [];
  forward_inbound = none;
  last_result = [];
}

abbrev pub second : OutboundJob
second = record first { job_id = 74 ∷ 50 ∷ []; state = JobState.active; deliveries = sent ∷ [] }

abbrev pub spool : Spool
spool = record {
  jobs = (first.job_id, first) ∷ (second.job_id, second) ∷ [];
  items = (first.job_id, 1 ∷ []) ∷ (second.job_id, 2 ∷ []) ∷ [];
  events = [];
}

abbrev pub db : Db (Entries (List ℕ))
db = record {
  jobs = encoded encode_job spool.jobs;
  items = spool.items;
  submissions = [];
  events = [];
}

pub waiting-IsStorable : IsStorableCopy waiting
unfolding is_utf8
waiting-IsStorable = record {
  index = omega arith;
  local_identity = (refl, omega arith);
  next_hop = (refl, omega arith);
  next_hop_key = tt;
  class = (refl, omega arith);
  retry_at = tt;
  attempts = omega arith;
  last_result = (refl, omega arith);
  worker_token = tt;
}

pub sent-IsStorable : IsStorableCopy sent
unfolding is_utf8
sent-IsStorable = record {
  index = omega arith;
  local_identity = (refl, omega arith);
  next_hop = (refl, omega arith);
  next_hop_key = tt;
  class = (refl, omega arith);
  retry_at = tt;
  attempts = omega arith;
  last_result = (refl, omega arith);
  worker_token = (refl, omega arith);
}

pub first-IsStorable : IsStorable first
unfolding is_utf8
first-IsStorable = record {
  job_id = (refl, omega arith);
  application = (refl, omega arith);
  idempotency_key = (refl, omega arith);
  digest = refl;
  target = (refl, omega arith);
  local_identity = (refl, omega arith);
  created = omega arith;
  changed = omega arith;
  last_result = (refl, omega arith);
  forward_inbound = tt;
  delivery_count = omega arith;
  deliveries = (waiting-IsStorable, tt);
  source_count = omega arith;
  sources = tt;
}

pub second-IsStorable : IsStorable second
unfolding is_utf8
second-IsStorable = record {
  job_id = (refl, omega arith);
  application = first-IsStorable.application;
  idempotency_key = first-IsStorable.idempotency_key;
  digest = refl;
  target = first-IsStorable.target;
  local_identity = first-IsStorable.local_identity;
  created = omega arith;
  changed = omega arith;
  last_result = first-IsStorable.last_result;
  forward_inbound = tt;
  delivery_count = omega arith;
  deliveries = (sent-IsStorable, tt);
  source_count = omega arith;
  sources = tt;
}

pub first-IsSound : IsSound first
unfolding state_code aggregate_state
first-IsSound = record {
  copies = (record { token = refl; failure = refl; retry = refl }, tt);
  numbers = (refl, tt);
  state = refl;
}

pub second-IsSound : IsSound second
unfolding state_code aggregate_state
second-IsSound = record {
  copies = (record { token = refl; failure = refl; retry = refl }, tt);
  numbers = (refl, tt);
  state = refl;
}

pub db-Represents : Represents db spool
db-Represents = record {
  jobs = refl;
  items = refl;
  events = refl;
  kept = (
    record { named = refl; storable = first-IsStorable; sound = first-IsSound },
    (record { named = refl; storable = second-IsStorable; sound = second-IsSound }, tt),
  );
}

abbrev pub delivery : NewDelivery
delivery = record {
  local_identity = 97 ∷ [];
  next_hop = 100 ∷ [];
  next_hop_key = none;
  mode = DeliveryMode.passive;
  class = 99 ∷ [];
  retry_at = none;
  policies = (policy, policy);
}
