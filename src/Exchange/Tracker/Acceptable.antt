-- ===== src/Exchange/Tracker/Acceptable.antt =====
-- crates/tith-exchange/src/response.rs: which responses are recorded, and what is recorded.
use tith.Base.{
  ℕ, ◌≡◌, ◌≢◌, ◌⊎◌, refl, sym, ap, ◌∙◌, subst, arith, true, false, not, ◌&&◌, List, [], ◌∷◌, ◌++◌,
  All, any, take, drop, take-append-drop, get_elem?, Option, none, some, Bool-cases, inl, inr, ok,
  err, nat_eq,
}
use tith.Wire.Address.{TlvHash}
use tith.Wire.Item.{ItemKind, ValidatedItem}
use tith.Exchange.Tracker.{
  OutstandingRequest, CompletedResponse, RequestKind, ResponseKind, ResponseTracker, ExchangeError,
  panic, insert, names, response_kind, is_some, is_public_key_request, accept_response,
  observe_response,
}
use tith.Exchange.Tracker.Answered.{Answered, insert-Answered}
use tith.Exchange.Tracker.Observe.{IsAccounted, accept_response-Accepts, observe-ok, observe-cases}
use tith.Exchange.Tracker.Accept.{accept_response-ne-panic}
use tith.Exchange.Tracker.Named.{
  Names, names-Names, Names-names, position-names, position-IsDistinct, insert-take-drop,
}

pub data IsResponse : ItemKind → ResponseKind → Type 0 where
  accepted : IsResponse ItemKind.accepted ResponseKind.accepted
  rejected : IsResponse ItemKind.rejected ResponseKind.rejected

-- What makes a response acceptable: it is a response, it names an outstanding request that has no
-- response yet, and only a PublicKeyRequest may be answered with a key.
pub record IsAcceptable (t : ResponseTracker) (item : ValidatedItem) : Type 0 where
  pub response : ResponseKind
  pub kind : IsResponse item.kind response
  pub hash : TlvHash
  pub answers : item.response_to ≡ some hash
  pub request : OutstandingRequest
  pub place : ℕ
  pub outstanding : get_elem? t.outstanding place ≡ some request
  pub named : Names hash item.request_identifier request
  pub key_allowed :
      (item.response_public_key ≡ none) ⊎ (request.kind ≡ RequestKind.public_key_request)
  pub fresh : All (λ c. ¬ Names hash item.request_identifier c.request) t.completed

-- The response is put between the completed ones, and so it stands in the order of the requests.
pub record IsRecorded (t : ResponseTracker) (item : ValidatedItem) (a : IsAcceptable t item)
    : Type 0 where
  pub before : List CompletedResponse
  pub after : List CompletedResponse
  pub was : t.completed ≡ before ++ after
  pub becomes : observe_response t item ≡ (
    ok tt,
    record t {
      completed =
          before
          ++ (record { request = a.request; response = a.response; rejection = item.rejection })
            ∷ after;
    },
  )
  pub order : Answered t.outstanding (observe_response t item).1.completed

response_kind-IsResponse :
    (kind : ItemKind) (response : ResponseKind)
    → response_kind kind ≡ ok response
    → IsResponse kind response
response_kind-IsResponse ItemKind.accepted ResponseKind.accepted h = accepted
response_kind-IsResponse ItemKind.rejected ResponseKind.rejected h = rejected
response_kind-IsResponse _ _ h = cc

IsResponse-response_kind :
    {kind : ItemKind} {response : ResponseKind}
    → IsResponse kind response
    → response_kind kind ≡ ok response
IsResponse-response_kind accepted = refl
IsResponse-response_kind rejected = refl

key_allowed-cases :
    {K : Type 0} (key : Option K) (kind : RequestKind)
    → not (is_some key && not (is_public_key_request kind)) ≡ true
    → (key ≡ none) ⊎ (kind ≡ RequestKind.public_key_request)
key_allowed-cases none kind h = inl refl
key_allowed-cases (some key) RequestKind.public_key_request h = inr refl
key_allowed-cases (some key) _ h = cc

any-fresh :
    (hash : TlvHash) (identifier : ℕ) (cs : List CompletedResponse)
    → any (λ c. names hash identifier c.request) cs ≡ false
    → All (λ c. ¬ Names hash identifier c.request) cs
any-fresh hash identifier [] h = tt
any-fresh hash identifier (c ∷ cs) h = elim (Bool-cases (names hash identifier c.request)) [
  | inl e ↦ absurd (ground arith)
  | inr e ↦ (
    (λ n. let e' = Names-names hash identifier c.request n in cc (sym e ∙ e')),
    any-fresh hash identifier cs (ground arith),
  )
]

fresh-any :
    (hash : TlvHash) (identifier : ℕ) (cs : List CompletedResponse)
    → All (λ c. ¬ Names hash identifier c.request) cs
    → any (λ c. names hash identifier c.request) cs ≡ false
fresh-any hash identifier [] h = refl
fresh-any hash identifier (c ∷ cs) (n, ns) = elim (Bool-cases (names hash identifier c.request)) [
  | inl e ↦ absurd (n (names-Names hash identifier c.request e))
  | inr e ↦ let rest = fresh-any hash identifier cs ns in ground arith
]

key_allowed-key :
    {K : Type 0} (key : Option K) (kind : RequestKind)
    → (key ≡ none) ⊎ (kind ≡ RequestKind.public_key_request)
    → not (is_some key && not (is_public_key_request kind)) ≡ true
key_allowed-key key kind (inl e) = rw e
key_allowed-key none kind (inr e) = refl
key_allowed-key (some key) kind (inr e) = rw e

abbrev response_to_request :
    (t : ResponseTracker) (item : ValidatedItem) → IsAcceptable t item → CompletedResponse
response_to_request t item a = record {
  request = a.request;
  response = a.response;
  rejection = item.rejection;
}

-- An acceptable response passes every check, and keeps the order.
IsAcceptable-accept :
    (t : ResponseTracker) (item : ValidatedItem)
    → IsAccounted t
    → (a : IsAcceptable t item)
    → (i : ℕ) × (accept_response t item ≡ ok (insert i (response_to_request t item a) t.completed))
      × Answered t.outstanding (insert i (response_to_request t item a) t.completed)
unfolding accept_response
IsAcceptable-accept t item h a =
    let named = Names-names a.hash item.request_identifier a.request a.named in
    let found =
      position-IsDistinct a.hash item.request_identifier t.outstanding a.place a.request h.distinct
        a.outstanding named in
    let fresh = fresh-any a.hash item.request_identifier t.completed a.fresh in
    let (i, e, order) =
      insert-Answered t.outstanding t.completed a.hash item.request_identifier a.place
        (response_to_request t item a) h.order h.distinct found a.outstanding fresh in
    (
      i,
      rw
          (
            IsResponse-response_kind a.kind,
            a.answers,
            found,
            a.outstanding,
            key_allowed-key item.response_public_key a.request.kind a.key_allowed,
            fresh,
            e,
          )
          refl,
      order,
    )

accept-IsAcceptable :
    (t : ResponseTracker) (item : ValidatedItem) (completed : List CompletedResponse)
    → accept_response t item ≡ ok completed
    → IsAcceptable t item
accept-IsAcceptable t item completed e =
    let acc = accept_response-Accepts t item completed e in
    record {
      response = acc.new.response;
      kind = response_kind-IsResponse item.kind acc.new.response acc.kind;
      hash = acc.hash;
      answers = acc.answers;
      request = acc.new.request;
      place = acc.place;
      outstanding = acc.request;
      named =
          names-Names acc.hash item.request_identifier acc.new.request
            (position-names _ t.outstanding acc.place acc.new.request acc.found acc.request);
      key_allowed = key_allowed-cases item.response_public_key acc.new.request.kind acc.key_allowed;
      fresh = any-fresh acc.hash item.request_identifier t.completed acc.fresh;
    }

IsAcceptable-IsRecorded :
    (t : ResponseTracker) (item : ValidatedItem)
    → IsAccounted t
    → (a : IsAcceptable t item) → IsRecorded t item a
IsAcceptable-IsRecorded t item h a =
    let (i, e, order) = IsAcceptable-accept t item h a in
    let same = observe-ok t item _ e in
    record {
      before = take i t.completed;
      after = drop i t.completed;
      was = sym (take-append-drop i t.completed);
      becomes =
          same
          ∙ ap (λ cs. (ok tt, record t { completed = cs }))
              (insert-take-drop i (response_to_request t item a) t.completed);
      order = subst (λ r. Answered t.outstanding r.1.completed) (sym same) order;
    }

-- In an accounted tracker a response that is acceptable is recorded with its request, kind and
-- rejection, in the order of the requests, and nothing else of the tracker changes; any other is
-- refused with an error that is no panic, and changes nothing.
pub observe_response-IsRecorded :
    (t : ResponseTracker) (item : ValidatedItem)
    → IsAccounted t
    → ((a : IsAcceptable t item) × IsRecorded t item a)
      ⊎ ((¬ IsAcceptable t item)
          × (x : ExchangeError) × (x ≢ panic)
          × (observe_response t item ≡ (err x, t)))
observe_response-IsRecorded t item h = elim (observe-cases t item) [
  | inl (completed, e, same) ↦
      let a = accept-IsAcceptable t item completed e in inl (a, IsAcceptable-IsRecorded t item h a)
  | inr (x, e, same) ↦ inr (
    (λ a. let (i, e', order) = IsAcceptable-accept t item h a in cc (sym e ∙ e')),
    x,
    (λ bad. accept_response-ne-panic t item h (e ∙ ap err bad)),
    same,
  )
]
