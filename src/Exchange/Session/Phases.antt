-- ===== src/Exchange/Session/Phases.antt =====
-- What each state of a session says of its tracker and of the calls so far.
use tith.Base.{
  ◌≡◌, refl, arith, Bool, true, false, not, ◌&&◌, Bool-cases, inl, inr, Result, ok, err, List, [],
  ◌∷◌, any, length, ◌=?◌,
}
use tith.Wire.Address.{identity_eq}
use tith.Wire.Item.{ValidatedItem}
use tith.Exchange.Tracker.{
  OutstandingRequest, ResponseTracker, ReplyHeader, ExchangeError, is_complete,
  requires_return_bundle, validate_reply_identity, observe_responses,
}
use tith.Exchange.Tracker.Answered.{IsDistinct, Answered-none}
use tith.Exchange.Tracker.Observe.{Keeps, Keeps-trans, observe_responses-Keeps}
use tith.Exchange.Session.{
  SessionState, ready, awaiting_reply_header, awaiting_responses, must_send_reply, closing,
  complete, failed, ClientSession, Event, sent, header, payload, reply_sent, shut, initial_from,
  after_header, header_from, after_responses, responses_from, final_from, unclosed_end, closed_from,
  initial_sent, reply_header_received, responses_received, final_reply_sent, closed, step, after,
}

-- A call that hands over a reply header from the destination to the origin.
abbrev pub authentic : ResponseTracker → Event → Bool
authentic t (header reply) = reply.origin =? t.destination && reply.destination =? t.origin
authentic t _ = false

abbrev pub is_reply_sent : Event → Bool
is_reply_sent reply_sent = true
is_reply_sent _ = false

-- What each state says of the tracker and of the calls so far.
abbrev pub Phase : ResponseTracker → List Event → SessionState → ResponseTracker → Type 0
Phase t log ready u = u.completed ≡ []
Phase t log awaiting_reply_header u = u.completed ≡ []
Phase t log awaiting_responses u = any (authentic t) log ≡ true
Phase t log must_send_reply u = (any (authentic t) log ≡ true) × (is_complete u ≡ true)
Phase t log closing u =
    (any (authentic t) log ≡ true)
    × (is_complete u ≡ true)
    × ((requires_return_bundle u && not (any is_reply_sent log)) ≡ false)
Phase t log complete u =
    (any (authentic t) log ≡ true)
    × (is_complete u ≡ true)
    × ((requires_return_bundle u && not (any is_reply_sent log)) ≡ false)
Phase t log failed u = Unit {0}

pub record IsConsistent (t : ResponseTracker) (log : List Event) (s : ClientSession) : Type 0 where
  pub keeps : Keeps t s.tracker
  pub phase : Phase t log s.state s.tracker

-- A longer log still holds what the shorter one held.
any_later :
    (p : Event → Bool) (e : Event) (log : List Event) → any p log ≡ true → any p (e ∷ log) ≡ true
any_later p e log h = ground arith

owed_later :
    (r : Bool) (e : Event) (log : List Event)
    → (r && not (any is_reply_sent log)) ≡ false
    → (r && not (any is_reply_sent (e ∷ log))) ≡ false
owed_later r e log h = ground arith

any_first : (p : Event → Bool) (e : Event) (log : List Event) → p e ≡ true → any p (e ∷ log) ≡ true
any_first p e log h = ground arith

unclosed_end-failed : (s : ClientSession) → (unclosed_end s).1 ≡ record s { state = failed }
unfolding unclosed_end
unclosed_end-failed s = ground arith

any_empty :
    (p : OutstandingRequest → Bool) (os : List OutstandingRequest)
    → length os ≡ 0
    → any p os ≡ false
any_empty p [] h = refl
any_empty p (o ∷ os) h = absurd (omega arith)

-- With no response and nothing to wait for there is no request.
complete_empty :
    (u : ResponseTracker)
    → u.completed ≡ []
    → is_complete u ≡ true
    → requires_return_bundle u ≡ false
unfolding is_complete requires_return_bundle
complete_empty u h e = any_empty _ u.outstanding (let e' = rw h at e in ground arith)

validated-authentic :
    (t u : ResponseTracker) (reply : ReplyHeader)
    → Keeps t u
    → (x : Unit {0}) → validate_reply_identity u reply ≡ ok x
    → authentic t (header reply) ≡ true
unfolding validate_reply_identity
validated-authentic t u reply k x e = rw (← k.destination, ← k.origin) (ground arith)

module _ (t : ResponseTracker) (log : List Event) where
  fail-IsConsistent :
      (event : Event) (s : ClientSession) (u : ResponseTracker)
      → Keeps t u
      → IsConsistent t (event ∷ log) (record s { state = failed; tracker = u })
  fail-IsConsistent event s u k = record { keeps = k; phase = tt }

  initial_from-IsConsistent :
      (state : SessionState) (s : ClientSession)
      → Keeps t s.tracker
      → Phase t log state s.tracker
      → IsConsistent t (sent ∷ log) (initial_from state s).1
  unfolding initial_from
  initial_from-IsConsistent ready s k h = record { keeps = k; phase = h }
  initial_from-IsConsistent _ s k h = fail-IsConsistent sent s s.tracker k

  final_from-IsConsistent :
      (state : SessionState) (s : ClientSession)
      → Keeps t s.tracker
      → Phase t log state s.tracker
      → IsConsistent t (reply_sent ∷ log) (final_from state s).1
  unfolding final_from
  final_from-IsConsistent must_send_reply s k h = record {
    keeps = k;
    phase = (h.0, h.1, ground arith);
  }
  final_from-IsConsistent _ s k h = fail-IsConsistent reply_sent s s.tracker k

  closed_from-IsConsistent :
      (state : SessionState) (s : ClientSession)
      → Keeps t s.tracker
      → Phase t log state s.tracker
      → IsConsistent t (shut ∷ log) (closed_from state s).1
  unfolding closed_from
  closed_from-IsConsistent closing s k h = record { keeps = k; phase = h }
  closed_from-IsConsistent _ s k h =
      rw (unclosed_end-failed s) (fail-IsConsistent shut s s.tracker k)

  after_header-IsConsistent :
      (reply : ReplyHeader) (r : Result ExchangeError (Unit {0})) (s : ClientSession)
      → Keeps t s.tracker
      → s.tracker.completed ≡ []
      → validate_reply_identity s.tracker reply ≡ r
      → IsConsistent t (header reply ∷ log) (after_header r s).1
  unfolding after_header
  after_header-IsConsistent reply (err e) s k h x = fail-IsConsistent (header reply) s s.tracker k
  after_header-IsConsistent reply (ok u) s k h x =
      let valid =
        any_first (authentic t) (header reply) log (validated-authentic t s.tracker reply k u x) in
      elim (Bool-cases (is_complete s.tracker)) [
        | inl done ↦
            rw done (record {
              keeps = k;
              phase = (valid, done, rw (complete_empty s.tracker h done) refl);
            })
        | inr more ↦ rw more (record { keeps = k; phase = valid })
      ]

  header_from-IsConsistent :
      (state : SessionState) (reply : ReplyHeader) (s : ClientSession)
      → Keeps t s.tracker
      → Phase t log state s.tracker
      → IsConsistent t (header reply ∷ log) (header_from state reply s).1
  unfolding header_from
  header_from-IsConsistent awaiting_reply_header reply s k h =
      after_header-IsConsistent reply _ s k h refl
  header_from-IsConsistent _ reply s k h = fail-IsConsistent (header reply) s s.tracker k

  after_responses-IsConsistent :
      (items : List ValidatedItem) (r : Result ExchangeError (Unit {0})) (s : ClientSession)
      → Keeps t s.tracker
      → s.state ≡ awaiting_responses
      → any (authentic t) log ≡ true
      → IsConsistent t (payload items ∷ log) (after_responses r s).1
  unfolding after_responses
  after_responses-IsConsistent items (err e) s k w h =
      fail-IsConsistent (payload items) s s.tracker k
  after_responses-IsConsistent items (ok u) s k w h =
      let valid = any_later (authentic t) (payload items) log h in
      elim (Bool-cases (is_complete s.tracker)) [
        | inr more ↦ rw more (record { keeps = k; phase = rw w valid })
        | inl done ↦ elim (Bool-cases (requires_return_bundle s.tracker)) [
          | inl owes ↦ rw (done, owes) (record { keeps = k; phase = (valid, done) })
          | inr free ↦ rw (done, free) (record { keeps = k; phase = (valid, done, rw free refl) })
        ]
      ]

  responses_from-IsConsistent :
      (state : SessionState) (items : List ValidatedItem) (s : ClientSession)
      → s.state ≡ state
      → Keeps t s.tracker
      → Phase t log state s.tracker
      → IsConsistent t (payload items ∷ log) (responses_from state items s).1
  unfolding responses_from
  responses_from-IsConsistent awaiting_responses items s w k h =
      after_responses-IsConsistent items (observe_responses s.tracker items).0
        (record s { tracker = (observe_responses s.tracker items).1 })
        (Keeps-trans t s.tracker _ k (observe_responses-Keeps s.tracker items k.accounted)) w h
  responses_from-IsConsistent _ items s w k h = fail-IsConsistent (payload items) s s.tracker k

  step-IsConsistent :
      (event : Event) (s : ClientSession)
      → IsConsistent t log s
      → IsConsistent t (event ∷ log) (step event s).1
  unfolding step initial_sent reply_header_received responses_received final_reply_sent closed
  step-IsConsistent sent s c = initial_from-IsConsistent s.state s c.keeps c.phase
  step-IsConsistent (header reply) s c = header_from-IsConsistent s.state reply s c.keeps c.phase
  step-IsConsistent (payload items) s c =
      responses_from-IsConsistent s.state items s refl c.keeps c.phase
  step-IsConsistent reply_sent s c = final_from-IsConsistent s.state s c.keeps c.phase
  step-IsConsistent shut s c = closed_from-IsConsistent s.state s c.keeps c.phase

-- A tracker before the first response.
pub record IsFresh (t : ResponseTracker) : Type 0 where
  pub distinct : IsDistinct t.outstanding
  pub unanswered : t.completed ≡ []

IsFresh-Keeps : (t : ResponseTracker) → IsFresh t → Keeps t t
IsFresh-Keeps t f = record {
  accounted = record {
    distinct = f.distinct;
    order = rw f.unanswered (Answered-none t.outstanding);
  };
  outstanding = refl;
  origin = refl;
  destination = refl;
}

pub after-IsConsistent :
    (t : ResponseTracker) (log : List Event) → IsFresh t → IsConsistent t log (after t log)
unfolding after
after-IsConsistent t [] f = record { keeps = IsFresh-Keeps t f; phase = f.unanswered }
after-IsConsistent t (event ∷ log) f =
    step-IsConsistent t log event (after t log) (after-IsConsistent t log f)
