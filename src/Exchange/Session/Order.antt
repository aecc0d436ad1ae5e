-- ===== src/Exchange/Session/Order.antt =====
-- The order of calls: what an error does, and that a failed session stays failed.
use tith.Base.{◌≡◌, ◌≢◌, ◌↔◌, ◌⊎◌, inl, inr, Bool-cases, refl, arith, Result, ok, err, List}
use tith.Wire.Item.{ValidatedItem}
use tith.Exchange.Tracker.{
  ExchangeError, ResponseTracker, ReplyHeader, is_complete, require_complete,
  validate_reply_identity, observe_responses, unexpected_response, incomplete_response, expected,
  received,
}
use tith.Exchange.Session.{
  SessionState, ready, awaiting_reply_header, awaiting_responses, must_send_reply, closing,
  complete, failed, ClientSession, Event, sent, header, payload, reply_sent, shut, initial_from,
  after_header, header_from, after_responses, responses_from, final_from, unclosed_end, closed_from,
  initial_sent, reply_header_received, responses_received, final_reply_sent, closed, step, Outcome,
}

-- An error, and a session that has failed.
abbrev pub IsFailure : Outcome → Type 0
IsFailure r = (e : ExchangeError) × (r.0 ≡ err e) × (r.1.state ≡ failed)

-- What every method does: it returns an error and fails, or it returns normally.
abbrev IsOrderly : Outcome → Type 0
IsOrderly r = IsFailure r ⊎ (r.0 ≡ ok tt)

abbrev incomplete : ResponseTracker → ExchangeError
incomplete t = incomplete_response (expected t) (received t)

unclosed : (s : ClientSession) → IsFailure (unclosed_end s)
unfolding unclosed_end require_complete
unclosed s = elim (Bool-cases (is_complete s.tracker)) [
  | inl e ↦ (unexpected_response, rw e, rw e)
  | inr e ↦ (incomplete s.tracker, rw e, rw e)
]

closed_from-IsFailure :
    (state : SessionState) (s : ClientSession) → state ≢ closing → IsFailure (closed_from state s)
unfolding closed_from
closed_from-IsFailure closing s h = absurd (h refl)
closed_from-IsFailure _ s h = unclosed s

initial_from-IsOrderly :
    (state : SessionState) (s : ClientSession) → IsOrderly (initial_from state s)
unfolding initial_from
initial_from-IsOrderly ready s = inr refl
initial_from-IsOrderly _ s = inl (unexpected_response, refl, refl)

after_header-IsOrderly :
    (r : Result ExchangeError (Unit {0})) (s : ClientSession) → IsOrderly (after_header r s)
unfolding after_header
after_header-IsOrderly (err x) s = inl (x, refl, refl)
after_header-IsOrderly (ok u) s = elim (Bool-cases (is_complete s.tracker)) [
  | inl e ↦ inr (rw e)
  | inr e ↦ inr (rw e)
]

after_responses-IsOrderly :
    (r : Result ExchangeError (Unit {0})) (s : ClientSession) → IsOrderly (after_responses r s)
unfolding after_responses
after_responses-IsOrderly (err x) s = inl (x, refl, refl)
after_responses-IsOrderly (ok u) s = inr (ground arith)

header_from-IsOrderly :
    (state : SessionState) (reply : ReplyHeader) (s : ClientSession)
    → IsOrderly (header_from state reply s)
unfolding header_from
header_from-IsOrderly awaiting_reply_header reply s =
    after_header-IsOrderly (validate_reply_identity s.tracker reply) s
header_from-IsOrderly _ reply s = inl (unexpected_response, refl, refl)

responses_from-IsOrderly :
    (state : SessionState) (items : List ValidatedItem) (s : ClientSession)
    → IsOrderly (responses_from state items s)
unfolding responses_from
responses_from-IsOrderly awaiting_responses items s =
    after_responses-IsOrderly (observe_responses s.tracker items).0
      (record s { tracker = (observe_responses s.tracker items).1 })
responses_from-IsOrderly _ items s = inl (unexpected_response, refl, refl)

final_from-IsOrderly : (state : SessionState) (s : ClientSession) → IsOrderly (final_from state s)
unfolding final_from
final_from-IsOrderly must_send_reply s = inr refl
final_from-IsOrderly _ s = inl (unexpected_response, refl, refl)

closed_from-IsOrderly : (state : SessionState) (s : ClientSession) → IsOrderly (closed_from state s)
unfolding closed_from
closed_from-IsOrderly closing s = inr refl
closed_from-IsOrderly _ s = inl (unclosed s)

step-IsOrderly : (event : Event) (s : ClientSession) → IsOrderly (step event s)
unfolding step initial_sent reply_header_received responses_received final_reply_sent closed
step-IsOrderly sent s = initial_from-IsOrderly s.state s
step-IsOrderly (header reply) s = header_from-IsOrderly s.state reply s
step-IsOrderly (payload items) s = responses_from-IsOrderly s.state items s
step-IsOrderly reply_sent s = final_from-IsOrderly s.state s
step-IsOrderly shut s = closed_from-IsOrderly s.state s

-- A method that returns an error leaves the session failed.
pub step_error-failed :
    (event : Event) (s : ClientSession) (e : ExchangeError)
    → (step event s).0 ≡ err e
    → (step event s).1.state ≡ failed
step_error-failed event s e h = elim (step-IsOrderly event s) [
  | inl (x, _, done) ↦ done
  | inr good ↦ cc
]

-- No method leaves the failed state, and each returns an error there.
pub step_failed : (event : Event) (s : ClientSession) → s.state ≡ failed → IsFailure (step event s)
unfolding step initial_sent reply_header_received responses_received final_reply_sent closed
step_failed sent s h = rw h (unexpected_response, refl, refl)
step_failed (header reply) s h = rw h (unexpected_response, refl, refl)
step_failed (payload items) s h = rw h (unexpected_response, refl, refl)
step_failed reply_sent s h = rw h (unexpected_response, refl, refl)
step_failed shut s h = rw h (unclosed s)

closed_from-eq-ok :
    (state : SessionState) (s : ClientSession)
    → (closed_from state s).0 ≡ ok tt
    → (state ≡ closing) × ((closed_from state s).1.state ≡ complete)
unfolding closed_from
closed_from-eq-ok closing s h = (refl, refl)
closed_from-eq-ok _ s h = let (x, e, _) = unclosed s in cc

-- Closing is accepted exactly in the closing state, and completes the session there.
pub closed-eq-ok :
    (s : ClientSession)
    → ((closed s).0 ≡ ok tt) ↔ ((s.state ≡ closing) × ((closed s).1.state ≡ complete))
unfolding closed closed_from
closed-eq-ok s = (closed_from-eq-ok s.state s, λ h. rw (h.0, closed) refl)
