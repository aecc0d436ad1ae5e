-- ===== src/Exchange/Tracker/Observe.antt =====
-- What recording responses keeps and does.
use tith.Base.{
  ℕ, ◌≡◌, refl, sym, ap, ◌∙◌, subst, arith, Bool, true, false, not, ◌&&◌, List, [], ◌∷◌, any,
  get_elem?, map, some, inl, inr, ◌⊎◌, ok, err, >>=-eq-ok, Result-cases, ok_or-bind, ensure-bind,
}
use tith.Wire.Address.{TlvHash}
use tith.Wire.Item.{ValidatedItem}
use tith.Exchange.Tracker.{
  CompletedResponse, ResponseTracker, ExchangeError, position, partition_point, insert, names,
  stands_before, response_kind, is_some, is_public_key_request, accept_response, observe_response,
  observe_responses, is_complete,
}
use tith.Exchange.Tracker.Answered.{Answered, IsDistinct, Answered-all, insert-Answered}

-- No two outstanding requests share hash and identifier, and the responses stand in their order.
pub record IsAccounted (t : ResponseTracker) : Type 0 where
  pub distinct : IsDistinct t.outstanding
  pub order : Answered t.outstanding t.completed

-- What an accepted response did.
pub record Accepts (t : ResponseTracker) (item : ValidatedItem) (completed : List CompletedResponse)
    : Type 0 where
  pub hash : TlvHash
  pub place : ℕ
  pub new : CompletedResponse
  pub insertion : ℕ
  pub kind : response_kind item.kind ≡ ok new.response
  pub answers : item.response_to ≡ some hash
  pub found : position (names hash item.request_identifier) t.outstanding ≡ some place
  pub request : get_elem? t.outstanding place ≡ some new.request
  pub key_allowed :
      not (is_some item.response_public_key && not (is_public_key_request new.request.kind)) ≡ true
  pub fresh : any (λ c. names hash item.request_identifier c.request) t.completed ≡ false
  pub detail : new.rejection ≡ item.rejection
  pub where_to : partition_point (stands_before t.outstanding place) t.completed ≡ some insertion
  pub recorded : completed ≡ insert insertion new t.completed

pub accept_response-Accepts :
    (t : ResponseTracker) (item : ValidatedItem) (completed : List CompletedResponse)
    → accept_response t item ≡ ok completed
    → Accepts t item completed
unfolding accept_response
accept_response-Accepts t item completed e =
    let (response, e1, f1) = >>=-eq-ok (response_kind item.kind) _ e in
    let (hash, e2, f2) = ok_or-bind _ item.response_to _ f1 in
    let (place, e3, f3) =
      ok_or-bind _ (position (names hash item.request_identifier) t.outstanding) _ f2 in
    let (request, e4, f4) = ok_or-bind _ (get_elem? t.outstanding place) _ f3 in
    let (e5, f5) =
      ensure-bind
        (not (is_some item.response_public_key && not (is_public_key_request request.kind))) _ _
        f4 in
    let (e6, f6) =
      ensure-bind (not (any (λ c. names hash item.request_identifier c.request) t.completed)) _ _
        f5 in
    let (insertion, e7, f7) =
      ok_or-bind _ (partition_point (stands_before t.outstanding place) t.completed) _ f6 in
    record {
      hash = hash;
      place = place;
      new = record { request = request; response = response; rejection = item.rejection };
      insertion = insertion;
      kind = e1;
      answers = e2;
      found = e3;
      request = e4;
      key_allowed = e5;
      fresh = not_true _ e6;
      detail = refl;
      where_to = e7;
      recorded = cc f7;
    }
  where
    not_true : (b : Bool) → not b ≡ true → b ≡ false
    not_true b h = ground arith

-- An accepted response keeps the account.
Accepts-IsAccounted :
    (t : ResponseTracker) (item : ValidatedItem) (completed : List CompletedResponse)
    → IsAccounted t
    → Accepts t item completed
    → IsAccounted (record t { completed = completed })
Accepts-IsAccounted t item completed ia a =
    let (i, e, order) =
      insert-Answered t.outstanding t.completed a.hash item.request_identifier a.place a.new
        ia.order ia.distinct a.found a.request a.fresh in
    let same : some a.insertion ≡ some i = sym a.where_to ∙ e in
    let at : a.insertion ≡ i = cc same in
    record {
      distinct = ia.distinct;
      order =
          subst (Answered t.outstanding)
            (sym (a.recorded ∙ ap (λ j. insert j a.new t.completed) at)) order;
    }

pub observe-ok :
    (t : ResponseTracker) (item : ValidatedItem) (completed : List CompletedResponse)
    → accept_response t item ≡ ok completed
    → observe_response t item ≡ (ok tt, record t { completed = completed })
unfolding observe_response
observe-ok t item completed e = rw (e, observe_response)

pub observe-err :
    (t : ResponseTracker) (item : ValidatedItem) (x : ExchangeError)
    → accept_response t item ≡ err x
    → observe_response t item ≡ (err x, t)
unfolding observe_response
observe-err t item x e = rw (e, observe_response)

pub observe-cases :
    (t : ResponseTracker) (item : ValidatedItem)
    → ((completed : List CompletedResponse) × (accept_response t item ≡ ok completed)
        × (observe_response t item ≡ (ok tt, record t { completed = completed })))
      ⊎ ((e : ExchangeError) × (accept_response t item ≡ err e)
          × (observe_response t item ≡ (err e, t)))
observe-cases t item = elim (Result-cases (accept_response t item)) [
  | inl (completed, e) ↦ inl (completed, e, observe-ok t item _ e)
  | inr (x, e) ↦ inr (x, e, observe-err t item _ e)
]

-- A recorded list of responses keeps the account, and changes nothing else of the tracker.
pub record Keeps (t u : ResponseTracker) : Type 0 where
  pub accounted : IsAccounted u
  pub outstanding : u.outstanding ≡ t.outstanding
  pub origin : u.origin ≡ t.origin
  pub destination : u.destination ≡ t.destination

Keeps-refl : (t : ResponseTracker) → IsAccounted t → Keeps t t
Keeps-refl t h = record { accounted = h; outstanding = refl; origin = refl; destination = refl }

pub Keeps-trans : (t u v : ResponseTracker) → Keeps t u → Keeps u v → Keeps t v
Keeps-trans t u v a b = record {
  accounted = b.accounted;
  outstanding = b.outstanding ∙ a.outstanding;
  origin = b.origin ∙ a.origin;
  destination = b.destination ∙ a.destination;
}

pub observe_response-Keeps :
    (t : ResponseTracker) (item : ValidatedItem)
    → IsAccounted t
    → Keeps t (observe_response t item).1
observe_response-Keeps t item h = elim (observe-cases t item) [
  | inr (x, e, same) ↦ subst (λ r. Keeps t r.1) (sym same) (Keeps-refl t h)
  | inl (completed, e, same) ↦
      subst (λ r. Keeps t r.1) (sym same)
        (record {
          accounted =
              Accepts-IsAccounted t item completed h (accept_response-Accepts t item completed e);
          outstanding = refl;
          origin = refl;
          destination = refl;
        })
]

-- Whatever the responses, the account is kept, on the error paths too.
pub observe_responses-Keeps :
    (t : ResponseTracker) (items : List ValidatedItem)
    → IsAccounted t
    → Keeps t (observe_responses t items).1
unfolding observe_responses
observe_responses-Keeps t [] h = Keeps-refl t h
observe_responses-Keeps t (item ∷ items) h =
    let first = observe_response-Keeps t item h in
    elim (Result-cases (observe_response t item).0) [
      | inr (e, x) ↦ rw (x, observe_responses) first
      | inl (u, x) ↦
          rw (x, observe_responses)
            (Keeps-trans t _ _ first
              (observe_responses-Keeps (observe_response t item).1 items first.accounted))
    ]

-- When all have been answered, the recorded responses are to the requests, one each and in order.
pub is_complete-requests :
    (t : ResponseTracker)
    → IsAccounted t
    → is_complete t ≡ true
    → map (λ c. c.request) t.completed ≡ t.outstanding
unfolding is_complete
is_complete-requests t h e = Answered-all h.order (ground arith)
