-- ===== src/Store/Outbound/RerouteRuns.antt =====
-- A job that has been rerouted, and is rerouted again.
use tith.Base.{ℕ, ◌≡◌, refl, arith, List, [], ◌∷◌, ok}
use tith.Wire.Cursor.{is_utf8}
use tith.Store.Types.{JobState, OutboundJob, completed}
use tith.Store.JobCodec.{encode_job}
use tith.Store.JobCodec.Parts.{IsStorableCopy}
use tith.Store.JobCodec.RoundTrip.{IsStorable, decode-encode_job}
use tith.Store.Table.{Entries, Db}
use tith.Store.Outbound.Control.{rerouted_text, reroute_update, restate}
use tith.Store.Outbound.Storable.{rerouted_text-IsText}
use tith.Store.Outbound.Operations.{query, reroute}
use tith.Store.Outbound.Reroute.{reroute-again}
use tith.Store.Outbound.Sample.{entries_tables, waiting, first, db, delivery, first-IsStorable}
use tith.Store.Outbound.Sample.{entries_tables, waiting, first, db, delivery, first-IsStorable}

-- A job that has been rerouted, and is rerouted again.
abbrev rerouted : OutboundJob
rerouted = record first {
  deliveries = record waiting { next_hop = 101 ∷ []; last_result = rerouted_text } ∷ [];
  last_result = rerouted_text;
}

rerouted_copy-IsStorable :
    IsStorableCopy (record waiting { next_hop = 101 ∷ []; last_result = rerouted_text })
unfolding is_utf8
rerouted_copy-IsStorable = record {
  index = omega arith;
  local_identity = (refl, omega arith);
  next_hop = (refl, omega arith);
  next_hop_key = tt;
  class = (refl, omega arith);
  retry_at = tt;
  attempts = omega arith;
  last_result = rerouted_text-IsText;
  worker_token = tt;
}

rerouted-IsStorable : IsStorable rerouted
rerouted-IsStorable = record {
  job_id = first-IsStorable.job_id;
  application = first-IsStorable.application;
  idempotency_key = first-IsStorable.idempotency_key;
  digest = refl;
  target = first-IsStorable.target;
  local_identity = first-IsStorable.local_identity;
  created = omega arith;
  changed = omega arith;
  last_result = rerouted_text-IsText;
  forward_inbound = tt;
  delivery_count = omega arith;
  deliveries = (rerouted_copy-IsStorable, tt);
  source_count = omega arith;
  sources = tt;
}

abbrev rerouted_db : Db (Entries (List ℕ))
rerouted_db = record db { jobs = (first.job_id, encode_job rerouted) ∷ [] }

reroute-again_example :
    reroute first.application first.job_id 60 delivery rerouted_db
    ≡ ok (restate (reroute_update delivery rerouted).0 JobState.queued, rerouted_db)
reroute-again_example =
    reroute-again first.application first.job_id 60 delivery rerouted_db rerouted
      (unfold query in decode-encode_job rerouted rerouted-IsStorable) refl refl

-- The answer says that the reroute is complete.
reroute_test :
    restate (reroute_update delivery rerouted).0 JobState.queued ≡ completed JobState.queued
unfolding reroute_update
reroute_test = refl
