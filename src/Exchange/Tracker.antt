-- ===== src/Exchange/Tracker.antt =====
-- crates/tith-exchange/src/response.rs: request accounting. A method on `&mut self` returns its
-- result beside the new tracker.
pub mod Answered
pub mod Observe
pub mod Accept
pub mod Named
pub mod Acceptable
use tith.Base.{
  ℕ, zero, suc, ◌+◌, Bool, true, false, not, ◌&&◌, ◌==◌, ltb, if◌then◌else◌, List, [], ◌∷◌, length,
  any, take, drop, ◌++◌, get_elem?, Option, none, some, ok_or, Result, ok, err, ensure, ◌>>=◌, ◌>>◌,
  ◌=?◌, Eq, list_eq, nat_eq,
}
use tith.Wire.Address.{Identity, PublicKey, TlvHash, identity_eq}
use tith.Wire.Item
use tith.Wire.Item.{ItemKind, Rejection, ValidatedItem}

pub data RequestKind : Type 0 where
  message file file_request poll_messages poll_files poll_file_requests public_key_request :
      RequestKind

-- `RequestKind::requires_return_bundle`.
unfoldable pub kind_requires_return_bundle : RequestKind → Bool
kind_requires_return_bundle RequestKind.file_request = true
kind_requires_return_bundle RequestKind.poll_messages = true
kind_requires_return_bundle RequestKind.poll_files = true
kind_requires_return_bundle RequestKind.poll_file_requests = true
kind_requires_return_bundle _ = false

abbrev pub is_public_key_request : RequestKind → Bool
is_public_key_request RequestKind.public_key_request = true
is_public_key_request _ = false

pub record OutstandingRequest : Type 0 where
  pub signed_tlv_hash : TlvHash
  pub request_identifier : ℕ
  pub kind : RequestKind

pub data ResponseKind : Type 0 where
  accepted rejected : ResponseKind

pub record CompletedResponse : Type 0 where
  pub request : OutstandingRequest
  pub response : ResponseKind
  pub rejection : Option Rejection

-- Of error.rs, the errors that these modules return. `panic` is no value of the source: it is
-- the panic of an `expect` or of an index out of bounds.
pub data ExchangeError : Type 0 where
  wrong_reply_origin wrong_reply_destination unexpected_response : ExchangeError
  duplicate_response invalid_response : ExchangeError
  incomplete_response : ℕ → ℕ → ExchangeError
  panic : ExchangeError

unfoldable pub request_kind : ItemKind → Option RequestKind
request_kind ItemKind.net_mail = some RequestKind.message
request_kind ItemKind.echo_mail = some RequestKind.message
request_kind ItemKind.file = some RequestKind.file
request_kind ItemKind.file_request = some RequestKind.file_request
request_kind ItemKind.poll_messages = some RequestKind.poll_messages
request_kind ItemKind.poll_files = some RequestKind.poll_files
request_kind ItemKind.poll_file_requests = some RequestKind.poll_file_requests
request_kind ItemKind.public_key_request = some RequestKind.public_key_request
request_kind ItemKind.accepted = none
request_kind ItemKind.rejected = none

pub record ResponseTracker : Type 0 where
  pub origin : Identity
  pub destination : Identity
  pub outstanding : List OutstandingRequest
  pub completed : List CompletedResponse

unfoldable pub expected : ResponseTracker → ℕ
expected self = length self.outstanding

unfoldable pub received : ResponseTracker → ℕ
received self = length self.completed

unfoldable pub is_complete : ResponseTracker → Bool
unfolding expected received
is_complete self = received self == expected self

unfoldable pub requires_return_bundle : ResponseTracker → Bool
unfolding kind_requires_return_bundle
requires_return_bundle self = any (λ r. kind_requires_return_bundle r.kind) self.outstanding

-- The two fields of `Bundle` that a tracker reads of a reply.
pub record ReplyHeader : Type 0 where
  pub origin : Identity
  pub destination : Identity

unfoldable pub validate_reply_identity :
    ResponseTracker → ReplyHeader → Result ExchangeError (Unit {0})
validate_reply_identity self reply =
    if not (reply.origin =? self.destination)
    then err wrong_reply_origin
    else if not (reply.destination =? self.origin)
    then err wrong_reply_destination
    else ok tt

-- `iter().position(..)` of the standard library.
abbrev pub position {ℓ} : {A : Type ℓ} → (A → Bool) → List A → Option ℕ
position p [] = none
position p (x ∷ xs) =
    if p x then some 0 else elim (position p xs) [ none ↦ none | some i ↦ some (suc i) ]

-- `slice::partition_point`, whose documentation wants a partitioned slice: the length of the prefix
-- that passes. `none` is a panic of the predicate, here up to the first element that does not pass;
-- the library's binary search may ask for another element too.
abbrev pub partition_point {ℓ} : {A : Type ℓ} → (A → Option Bool) → List A → Option ℕ
partition_point p [] = some 0
partition_point p (x ∷ xs) = elim (p x) [
  | none ↦ none
  | some false ↦ some 0
  | some true ↦ elim (partition_point p xs) [ none ↦ none | some i ↦ some (suc i) ]
]

-- `Vec::insert`.
abbrev pub insert {ℓ} : {A : Type ℓ} → ℕ → A → List A → List A
insert zero a xs = a ∷ xs
insert (suc i) a [] = a ∷ []
insert (suc i) a (x ∷ xs) = x ∷ insert i a xs

-- Whether a request has this hash and identifier.
abbrev pub names : TlvHash → ℕ → OutstandingRequest → Bool
names response_hash identifier request =
    request.signed_tlv_hash =? response_hash && request.request_identifier == identifier

abbrev pub same_request : OutstandingRequest → OutstandingRequest → Bool
same_request a b = names a.signed_tlv_hash a.request_identifier b

-- The closure of `partition_point` in `observe_response`.
unfoldable pub stands_before : List OutstandingRequest → ℕ → CompletedResponse → Option Bool
stands_before outstanding place existing =
    elim (position (same_request existing.request) outstanding) [
      | none ↦ none
      | some existing_position ↦ some (ltb existing_position place)
    ]

abbrev pub response_kind : ItemKind → Result ExchangeError ResponseKind
response_kind ItemKind.accepted = ok ResponseKind.accepted
response_kind ItemKind.rejected = ok ResponseKind.rejected
response_kind _ = err invalid_response

abbrev pub is_some {ℓ} : {A : Type ℓ} → Option A → Bool
is_some none = false
is_some (some a) = true

-- The checks of `observe_response`, and the list of completed responses that it leaves.
unfoldable pub accept_response :
    ResponseTracker → ValidatedItem → Result ExchangeError (List CompletedResponse)
unfolding stands_before
accept_response self item = do
  response ← response_kind item.kind
  response_hash ← ok_or unexpected_response item.response_to
  place ←
      ok_or unexpected_response
        (position (names response_hash item.request_identifier) self.outstanding)
  request ← ok_or panic (get_elem? self.outstanding place)
  ensure (not (is_some item.response_public_key && not (is_public_key_request request.kind)))
      unexpected_response
  ensure (not (any (λ c. names response_hash item.request_identifier c.request) self.completed))
      duplicate_response
  insertion ← ok_or panic (partition_point (stands_before self.outstanding place) self.completed)
  ok (
      insert insertion
        (record { request = request; response = response; rejection = item.rejection })
        self.completed)

unfoldable pub observe_response :
    ResponseTracker → ValidatedItem → Result ExchangeError (Unit {0}) × ResponseTracker
observe_response self item = elim (accept_response self item) [
  | ok completed ↦ (ok tt, record self { completed = completed })
  | err e ↦ (err e, self)
]

-- The loop stops at the first error and keeps what it has recorded.
unfoldable pub observe_responses :
    ResponseTracker → List ValidatedItem → Result ExchangeError (Unit {0}) × ResponseTracker
observe_responses self [] = (ok tt, self)
observe_responses self (response ∷ responses) =
    let (r, self') = observe_response self response in
    elim r [ ok _ ↦ observe_responses self' responses | err e ↦ (err e, self') ]

unfoldable pub require_complete : ResponseTracker → Result ExchangeError (Unit {0})
unfolding is_complete
require_complete self =
    if is_complete self then ok tt else err (incomplete_response (expected self) (received self))
