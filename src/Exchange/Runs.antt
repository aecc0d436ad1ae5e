-- ===== src/Exchange/Runs.antt =====
-- A session over two requests, run and with the theorems at it.
use tith.Base.{
  ℕ, ◌≡◌, ◌≢◌, ◌⊎◌, refl, true, false, not, ◌&&◌, List, [], ◌∷◌, any, map, none, some, err, pos,
}
use tith.Wire.Address.{Identity, identity_eq}
use tith.Wire.Item.{ItemKind, ValidatedItem}
use tith.Exchange.Tracker
use tith.Exchange.Tracker.{
  OutstandingRequest, CompletedResponse, RequestKind, ResponseTracker, ReplyHeader, ExchangeError,
  panic, unexpected_response, duplicate_response, accept_response, stands_before, observe_response,
  observe_responses, is_complete, requires_return_bundle, validate_reply_identity, expected,
  received,
}
use tith.Exchange.Tracker.Answered.{Answered-none}
use tith.Exchange.Tracker.Observe.{IsAccounted}
use tith.Exchange.Tracker.Acceptable.{IsAcceptable, IsRecorded, observe_response-IsRecorded}
use tith.Exchange.Session.{
  complete, failed, Event, sent, header, payload, reply_sent, shut, step, after, closed,
  initial_sent, reply_header_received, responses_received, final_reply_sent,
}
use tith.Exchange.Session.Order.{step_error-failed}
use tith.Exchange.Session.Phases.{IsFresh, authentic, is_reply_sent}
use tith.Exchange.Session.Outcome.{after_complete, after-step-ne-panic}

abbrev near : Identity
near = record {
  address = record { domain = b'n' ∷ []; zone = pos 1; net = pos 1; node = pos 2; point = 0 };
  public_key = 1 ∷ [];
}

abbrev far : Identity
far = record {
  address = record { domain = b'n' ∷ []; zone = pos 1; net = pos 1; node = pos 3; point = 0 };
  public_key = 2 ∷ [];
}

abbrev mail : OutstandingRequest
mail = record { signed_tlv_hash = 7 ∷ []; request_identifier = 1; kind = RequestKind.message }

abbrev poll : OutstandingRequest
poll = record { signed_tlv_hash = 7 ∷ []; request_identifier = 2; kind = RequestKind.poll_messages }

abbrev fresh : ResponseTracker
fresh = record { origin = near; destination = far; outstanding = mail ∷ poll ∷ []; completed = [] }

abbrev acceptance : ℕ → ValidatedItem
acceptance id = record {
  kind = ItemKind.accepted;
  request_identifier = id;
  duplicate_identity = none;
  authentication = none;
  response_to = some (7 ∷ []);
  response_public_key = none;
  rejection = none;
  provenance = none;
  destination = none;
  area = none;
  raw = record { type_code = 68; value = [] };
}

abbrev whole : List Event
whole =
    shut
    ∷ reply_sent
    ∷ payload (acceptance 1 ∷ [])
    ∷ payload (acceptance 2 ∷ [])
    ∷ header (record { origin = far; destination = near })
    ∷ sent
    ∷ []

run_whole : (after fresh whole).state ≡ complete
unfolding after step initial_sent reply_header_received responses_received final_reply_sent closed
    validate_reply_identity observe_responses observe_response accept_response is_complete
    requires_return_bundle
run_whole = refl

run_twice : (observe_responses fresh (acceptance 1 ∷ acceptance 1 ∷ [])).0 ≡ err duplicate_response
unfolding observe_responses observe_response accept_response
run_twice = refl

fresh-IsFresh : IsFresh fresh
fresh-IsFresh = record { distinct = ((refl, tt), (tt, tt)); unanswered = refl }

fresh-IsAccounted : IsAccounted fresh
fresh-IsAccounted = record { distinct = ((refl, tt), (tt, tt)); order = Answered-none _ }

after_complete_example :
    (map (λ c. c.request) (after fresh whole).tracker.completed ≡ mail ∷ poll ∷ [])
    × (any (authentic fresh) whole ≡ true)
    × ((requires_return_bundle fresh && not (any is_reply_sent whole)) ≡ false)
after_complete_example = after_complete fresh whole fresh-IsFresh run_whole

after-step-ne-panic_example :
    (step (payload (acceptance 2 ∷ [])) (after fresh (sent ∷ []))).0 ≢ err panic
after-step-ne-panic_example =
    after-step-ne-panic fresh (sent ∷ []) (payload (acceptance 2 ∷ [])) fresh-IsFresh

observe_response-IsRecorded_example :
    ((a : IsAcceptable fresh (acceptance 2)) × IsRecorded fresh (acceptance 2) a)
    ⊎ ((¬ IsAcceptable fresh (acceptance 2))
        × (x : ExchangeError) × (x ≢ panic)
        × (observe_response fresh (acceptance 2) ≡ (err x, fresh)))
observe_response-IsRecorded_example =
    observe_response-IsRecorded fresh (acceptance 2) fresh-IsAccounted

early : (step shut (after fresh [])).0 ≡ err (Tracker.incomplete_response 2 0)
unfolding step closed after is_complete Tracker.require_complete
early = refl

step_error-failed_example : (step shut (after fresh [])).1.state ≡ failed
step_error-failed_example = step_error-failed shut (after fresh []) _ early
