-- ===== src/Exchange/Tracker/Accept.antt =====
-- crates/tith-exchange/src/response.rs: no `expect` and no index of the tracker is reached in vain.
use tith.Base.{
  ℕ, ◌≡◌, ◌≢◌, refl, ap, ◌∙◌, arith, Bool, List, [], ◌∷◌, any, get_elem?, none, some, Bool-cases,
  Option-cases, inl, inr, err, Result-cases,
}
use tith.Wire.Item.{ValidatedItem}
use tith.Exchange.Tracker.{
  OutstandingRequest, CompletedResponse, ResponseKind, ResponseTracker, panic, position, names,
  accept_response, observe_response, observe_responses,
}
use tith.Exchange.Tracker.Answered.{insert-Answered, place_hit, place_miss}
use tith.Exchange.Tracker.Observe.{IsAccounted, observe_response-Keeps, observe-cases}

-- An index that `position` returns is in range.
pub position-get :
    (p : OutstandingRequest → Bool) (os : List OutstandingRequest) (i : ℕ)
    → position p os ≡ some i
    → (o : OutstandingRequest) × (get_elem? os i ≡ some o)
position-get p [] i e = cc
position-get p (o ∷ os) i e = elim (Bool-cases (p o)) [
  | inl hit ↦ (o, rw (place_hit p o os i hit e) refl)
  | inr miss ↦
      let (q, eq, e') = place_miss p o os i miss e in
      let (r, at) = position-get p os q e' in (r, rw eq at)
]

pub accept_response-ne-panic :
    (t : ResponseTracker) (item : ValidatedItem)
    → IsAccounted t
    → accept_response t item ≢ err panic
unfolding accept_response
accept_response-ne-panic t item h e = elim (Option-cases item.response_to) [
  | inl n ↦ ground arith
  | inr (hash, a) ↦
      elim (Option-cases (position (names hash item.request_identifier) t.outstanding)) [
        | inl n ↦ ground arith
        | inr (place, p) ↦
            let (o, g) = position-get (names hash item.request_identifier) t.outstanding place p in
            elim (Bool-cases
              (any (λ c. names hash item.request_identifier c.request) t.completed)) [
                | inl dup ↦ ground arith
                | inr fresh ↦
                    let new : CompletedResponse = record {
                      request = o;
                      response = ResponseKind.accepted;
                      rejection = none;
                    } in
                    let (i, q, _) =
                      insert-Answered t.outstanding t.completed hash item.request_identifier place
                        new h.order h.distinct p g fresh in
                    ground arith
              ]
      ]
]

observe_response-ne-panic :
    (t : ResponseTracker) (item : ValidatedItem)
    → IsAccounted t
    → (observe_response t item).0 ≢ err panic
observe_response-ne-panic t item h e = elim (observe-cases t item) [
  | inl (completed, a, same) ↦ cc (ap (λ r. r.0) same)
  | inr (x, a, same) ↦ accept_response-ne-panic t item h (a ∙ ap err (cc (ap (λ r. r.0) same)))
]

-- Whatever is received, no `expect` and no index of the tracker panics.
pub observe_responses-ne-panic :
    (t : ResponseTracker) (items : List ValidatedItem)
    → IsAccounted t
    → (observe_responses t items).0 ≢ err panic
unfolding observe_responses
observe_responses-ne-panic t [] h e = cc
observe_responses-ne-panic t (item ∷ items) h e = elim (Result-cases (observe_response t item).0) [
  | inr (x, ex) ↦ observe_response-ne-panic t item h (ex ∙ (rw (ex, observe_responses) at e))
  | inl (u, ex) ↦
      observe_responses-ne-panic (observe_response t item).1 items
        ((observe_response-Keeps t item h).accounted) (rw (ex, observe_responses) at e)
]
