-- ===== src/Exchange/Session/Outcome.antt =====
-- What a completed session has done, whatever the calls before, and that no call panics.
use tith.Base.{◌≡◌, ◌≢◌, ◌∙◌, subst, arith, true, false, not, ◌&&◌, Result, ok, err, List, any, map}
use tith.Wire.Item.{ValidatedItem}
use tith.Exchange.Tracker.{
  ResponseTracker, ReplyHeader, ExchangeError, panic, requires_return_bundle,
  validate_reply_identity, require_complete,
}
use tith.Exchange.Tracker.Observe.{IsAccounted, is_complete-requests}
use tith.Exchange.Tracker.Accept.{observe_responses-ne-panic}
use tith.Exchange.Session.{
  SessionState, ready, awaiting_reply_header, awaiting_responses, complete, ClientSession, Event,
  sent, header, payload, reply_sent, shut, initial_from, after_header, header_from, after_responses,
  responses_from, final_from, closed_from, initial_sent, reply_header_received, responses_received,
  final_reply_sent, closed, step, after,
}
use tith.Exchange.Session.Phases.{authentic, is_reply_sent, Phase, IsFresh, after-IsConsistent}

requires_eq :
    (t u : ResponseTracker)
    → u.outstanding ≡ t.outstanding
    → requires_return_bundle u ≡ requires_return_bundle t
unfolding requires_return_bundle
requires_eq t u e = rw e

-- A completed session has an answer to every request, in the order of the requests. It was given
-- a reply header from the destination to the origin, and if a request calls for a final Reply
-- Bundle, that was sent.
pub after_complete :
    (t : ResponseTracker) (log : List Event)
    → IsFresh t
    → (after t log).state ≡ complete
    → (map (λ c. c.request) (after t log).tracker.completed ≡ t.outstanding)
      × (any (authentic t) log ≡ true)
      × ((requires_return_bundle t && not (any is_reply_sent log)) ≡ false)
after_complete t log f h =
    let c = after-IsConsistent t log f in
    let u = (after t log).tracker in
    let (valid, done, owed) = subst (λ st. Phase t log st u) h c.phase in
    (
      is_complete-requests u c.keeps.accounted done ∙ c.keeps.outstanding,
      valid,
      subst (λ b. (b && not (any is_reply_sent log)) ≡ false) (requires_eq t u c.keeps.outstanding)
          owed,
    )

after_responses-ne-panic :
    (r : Result ExchangeError (Unit {0})) (s : ClientSession)
    → r ≢ err panic
    → (after_responses r s).0 ≢ err panic
unfolding after_responses
after_responses-ne-panic (err e) s h = h
after_responses-ne-panic (ok u) s h = λ e. ground arith

responses_from-ne-panic :
    (state : SessionState) (items : List ValidatedItem) (s : ClientSession)
    → IsAccounted s.tracker
    → (responses_from state items s).0 ≢ err panic
unfolding responses_from
responses_from-ne-panic awaiting_responses items s h =
    after_responses-ne-panic _ _ (observe_responses-ne-panic s.tracker items h)
responses_from-ne-panic _ items s h = λ e. cc

header_from-ne-panic :
    (state : SessionState) (reply : ReplyHeader) (s : ClientSession)
    → (header_from state reply s).0 ≢ err panic
unfolding header_from after_header validate_reply_identity
header_from-ne-panic awaiting_reply_header reply s e = ground arith
header_from-ne-panic _ reply s e = cc

other_from-ne-panic :
    (state : SessionState) (s : ClientSession)
    → ((initial_from state s).0 ≢ err panic)
      × ((final_from state s).0 ≢ err panic)
      × ((closed_from state s).0 ≢ err panic)
unfolding initial_from final_from closed_from require_complete
other_from-ne-panic ready s = ((λ e. ground arith), (λ e. ground arith), (λ e. ground arith))
other_from-ne-panic _ s = ((λ e. ground arith), (λ e. ground arith), (λ e. ground arith))

-- From a fresh tracker no call panics, whatever the calls before it and the values it is given.
pub after-step-ne-panic :
    (t : ResponseTracker) (log : List Event) (event : Event)
    → IsFresh t
    → (step event (after t log)).0 ≢ err panic
unfolding step initial_sent reply_header_received responses_received final_reply_sent closed
after-step-ne-panic t log sent f = (other_from-ne-panic _ (after t log)).0
after-step-ne-panic t log (header reply) f = header_from-ne-panic _ reply (after t log)
after-step-ne-panic t log (payload items) f =
    responses_from-ne-panic _ items (after t log) (after-IsConsistent t log f).keeps.accounted
after-step-ne-panic t log reply_sent f = (other_from-ne-panic _ (after t log)).1
after-step-ne-panic t log shut f = (other_from-ne-panic _ (after t log)).2
