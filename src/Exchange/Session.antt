-- ===== src/Exchange/Session.antt =====
-- crates/tith-exchange/src/session.rs: the order of a client's session. A method on `&mut self`
-- returns its result beside the new session; a test of the state is a match on it.
pub mod Order
pub mod Phases
pub mod Outcome
use tith.Base.{Bool, true, false, ◌&&◌, if◌then◌else◌, List, [], ◌∷◌, any, Result, ok, err, ◌=?◌}
use tith.Wire.Address.{identity_eq}
use tith.Wire.Item.{ValidatedItem}
use tith.Exchange.Tracker
use tith.Exchange.Tracker.{
  OutstandingRequest, CompletedResponse, ResponseTracker, ReplyHeader, ExchangeError,
  unexpected_response, is_complete, validate_reply_identity, observe_responses, require_complete,
}

pub data SessionState : Type 0 where
  ready awaiting_reply_header awaiting_responses must_send_reply closing complete failed :
      SessionState

pub record ClientSession : Type 0 where
  pub state : SessionState
  pub tracker : ResponseTracker

abbrev pub new : ResponseTracker → ClientSession
new tracker = record { state = ready; tracker = tracker }

unfoldable pub requires_return_bundle : ClientSession → Bool
requires_return_bundle self = Tracker.requires_return_bundle self.tracker

unfoldable pub responses : ClientSession → List CompletedResponse
responses self = self.tracker.completed

unfoldable pub requests : ClientSession → List OutstandingRequest
requests self = self.tracker.outstanding

abbrev pub Outcome : Type 0
Outcome = Result ExchangeError (Unit {0}) × ClientSession

abbrev pub move : SessionState → ClientSession → Outcome
move state s = (ok tt, record s { state = state })

-- `self.state = SessionState::Failed; return Err(error)`.
abbrev pub fail : ExchangeError → ClientSession → Outcome
fail error s = (err error, record s { state = failed })

initial_from : SessionState → ClientSession → Outcome
initial_from ready s = move awaiting_reply_header s
initial_from _ s = fail unexpected_response s

unfoldable pub initial_sent : ClientSession → Outcome
unfolding initial_from
initial_sent s = initial_from s.state s

after_header : Result ExchangeError (Unit {0}) → ClientSession → Outcome
after_header (err error) s = fail error s
after_header (ok _) s = if is_complete s.tracker then move closing s else move awaiting_responses s

header_from : SessionState → ReplyHeader → ClientSession → Outcome
unfolding after_header
header_from awaiting_reply_header reply s = after_header (validate_reply_identity s.tracker reply) s
header_from _ reply s = fail unexpected_response s

unfoldable pub reply_header_received : ReplyHeader → ClientSession → Outcome
unfolding header_from
reply_header_received reply s = header_from s.state reply s

-- What follows `observe_responses`, whose changes to the tracker stay on the error path too.
after_responses : Result ExchangeError (Unit {0}) → ClientSession → Outcome
after_responses (err error) s = fail error s
after_responses (ok _) s =
    if is_complete s.tracker
    then if Tracker.requires_return_bundle s.tracker then move must_send_reply s else move closing s
    else (ok tt, s)

responses_from : SessionState → List ValidatedItem → ClientSession → Outcome
unfolding after_responses
responses_from awaiting_responses items s =
    let (result, tracker) = observe_responses s.tracker items in
    after_responses result (record s { tracker = tracker })
responses_from _ items s = fail unexpected_response s

unfoldable pub responses_received : List ValidatedItem → ClientSession → Outcome
unfolding responses_from
responses_received items s = responses_from s.state items s

final_from : SessionState → ClientSession → Outcome
final_from must_send_reply s = move closing s
final_from _ s = fail unexpected_response s

unfoldable pub final_reply_sent : ClientSession → Outcome
unfolding final_from
final_reply_sent s = final_from s.state s

unclosed_end : ClientSession → Outcome
unclosed_end s =
    if is_complete s.tracker
    then fail unexpected_response s
    else (require_complete s.tracker, record s { state = failed })

closed_from : SessionState → ClientSession → Outcome
unfolding unclosed_end
closed_from closing s = move complete s
closed_from _ s = unclosed_end s

unfoldable pub closed : ClientSession → Outcome
unfolding closed_from
closed s = closed_from s.state s

-- A call of one of the methods above.
pub data Event : Type 0 where
  sent : Event
  header : ReplyHeader → Event
  payload : List ValidatedItem → Event
  reply_sent : Event
  shut : Event

unfoldable pub step : Event → ClientSession → Outcome
step sent s = initial_sent s
step (header reply) s = reply_header_received reply s
step (payload items) s = responses_received items s
step reply_sent s = final_reply_sent s
step shut s = closed s

-- A session of the tracker `t` after the calls of a log, the latest first.
unfoldable pub after : ResponseTracker → List Event → ClientSession
after t [] = new t
after t (event ∷ log) = (step event (after t log)).1
