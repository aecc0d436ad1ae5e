-- ===== src/Router.antt =====
-- crates/tith-router/src/lib.rs: the choice of a next hop, and of the policy for a failure.
-- The resolver, a trait object of the caller, is a function from addresses to keys.
pub mod Choice
pub mod Defaults
pub mod Reach
pub mod Policies
mod Runs
use tith.Base.{
  ℕ, zero, suc, ◌+◌, Bool, true, false, not, ◌&&◌, ◌||◌, ◌==◌, if◌then◌else◌, List, [], ◌∷◌, any,
  get_elem?, Option, none, some, Result, ok, err, ◌=?◌, nat_eq, int_eq, list_eq, option_eq,
}
use tith.Base.Options.{◌>>=◌, ◌>>◌, is_some, is_some_and, then_some, unwrap_or, or_else}
use tith.Wire.Address.{
  Address, PublicKey, Identity, is_anonymous, new_address, same_system_as, address_eq, identity_eq,
}
use tith.Wire.Pattern.{matches}
use tith.Config
use tith.Config.{
  Name, IdentityRef, Peer, BranchKind, IndependentKind, Selector, RouteMethod, FailurePolicy,
  FailureKind, RouteRule, FailureRule, Routes, ConfigurationSet, lookup, identity_ref_beq,
}
use tith.Nodelist
use tith.Nodelist.{Keyword, Entry, Nodelist, get, is_usable}

pub data RouteFailure : Type 0 where
  unroutable loop : RouteFailure

pub record Commitment : Type 0 where
  pub next_hop : Identity
  pub passive : Bool
  pub route_rule : Option ℕ
  pub method_index : ℕ

abbrev pub Resolver : Type 0
Resolver = Address → Option PublicKey

abbrev pub is_down : Keyword → Bool
is_down Keyword.down = true
is_down _ = false

abbrev pub is_closed : Keyword → Bool
is_closed Keyword.private = true
is_closed Keyword.hold = true
is_closed Keyword.down = true
is_closed _ = false

abbrev pub is_empty {ℓ} : {A : Type ℓ} → List A → Bool
is_empty [] = true
is_empty (x ∷ xs) = false

-- `iter().find(..)`.
abbrev pub find {ℓ} : {A : Type ℓ} → (A → Bool) → List A → Option A
find p [] = none
find p (x ∷ xs) = if p x then some x else find p xs

-- `Result::ok`.
abbrev pub ok_value : {E A : Type 0} → Result E A → Option A
ok_value (ok a) = some a
ok_value (err e) = none

-- The defaults where no rule matches.
abbrev pub non_anonymous_defaults : List RouteMethod
non_anonymous_defaults =
    RouteMethod.direct ∷ RouteMethod.boss ∷ RouteMethod.hub ∷ RouteMethod.host ∷ RouteMethod.region
    ∷ RouteMethod.zone ∷ RouteMethod.hold ∷ []

abbrev pub anonymous_defaults : List RouteMethod
anonymous_defaults = RouteMethod.boss ∷ RouteMethod.hub ∷ RouteMethod.direct ∷ RouteMethod.hold ∷ []

module _ (config : ConfigurationSet) (nodelist : Nodelist) (resolver : Resolver) where
  unfoldable pub peer_identity : Peer → Option Identity
  peer_identity peer = do
    public_key ← (if is_anonymous peer.address then peer.public_key else resolver peer.address)
    some (record { address = peer.address; public_key = public_key })

  unfoldable pub exact_peer : Identity → Option Peer
  unfolding peer_identity
  exact_peer identity =
      find (λ p. p.address =? identity.address && peer_identity p =? some identity)
        (Config.map_values config.peers)

  unfoldable pub usable : Identity → Bool
  usable identity =
      is_some_and (λ peer. not (is_empty peer.endpoints)) (exact_peer identity)
      || is_some_and (λ service. any is_usable service.endpoints)
          (get nodelist identity.address >>= λ entry. entry.tith)

  unfoldable pub named_peer : Name → Option Identity
  named_peer name = do peer ← lookup name config.peers; peer_identity peer

  unfoldable pub eligible_ancestor : Identity → Option (Identity × Bool)
  eligible_ancestor identity =
      let configured = exact_peer identity in
      then_some (is_some configured || usable identity)
        (identity, is_some_and (λ peer. is_empty peer.endpoints) configured)

  -- The last step of the ancestors that the nodelist names: a TITH node with a known key.
  unfoldable pub listed_ancestor : Address → Option (Identity × Bool)
  listed_ancestor address = do
    entry ← get nodelist address
    service ← entry.tith
    public_key ← resolver address
    eligible_ancestor (record { address = address; public_key = public_key })

  -- Boss and Hub of an anonymous destination are those of its configured peer.
  unfoldable pub configured_ancestor : (Peer → Option Name) → Identity → Option (Identity × Bool)
  configured_ancestor field destination = do
    peer ← exact_peer destination
    name ← field peer
    identity ← named_peer name
    eligible_ancestor identity

  unfoldable pub branch_ancestor :
      (Nodelist.Branch → Option Address) → Identity → Option (Identity × Bool)
  unfolding listed_ancestor
  branch_ancestor field destination = do
    entry ← get nodelist destination.address
    address ← field entry.branch
    listed_ancestor address

  unfoldable pub boss_ancestor : Identity → Option (Identity × Bool)
  unfolding listed_ancestor
  boss_ancestor destination = if destination.address.point == 0 then none else (do
    address ← ok_value (
        new_address destination.address.domain destination.address.zone destination.address.net
          destination.address.node 0)
    listed_ancestor address)

  unfoldable pub direct_candidate : Identity → Option (Identity × Bool)
  direct_candidate destination =
      if is_anonymous destination.address
      then (do
        peer ← exact_peer destination
        then_some (not (is_empty peer.endpoints)) (destination, false))
      else let prohibited =
          is_some_and (λ entry. is_closed entry.keyword) (get nodelist destination.address) in
        then_some (not prohibited && usable destination) (destination, false)

  unfoldable pub candidate : RouteMethod → Identity → Option (Identity × Bool)
  unfolding configured_ancestor branch_ancestor boss_ancestor direct_candidate
  candidate (RouteMethod.via name) destination = do
    identity ← named_peer name
    some (identity, false)
  candidate RouteMethod.direct destination = direct_candidate destination
  candidate RouteMethod.hold destination =
      then_some
        (not (is_some_and (λ entry. is_down entry.keyword) (get nodelist destination.address)))
        (destination, true)
  candidate RouteMethod.boss destination =
      if is_anonymous destination.address
      then configured_ancestor (λ peer. peer.boss) destination
      else boss_ancestor destination
  candidate RouteMethod.hub destination =
      if is_anonymous destination.address
      then configured_ancestor (λ peer. peer.hub) destination
      else branch_ancestor (λ branch. branch.hub) destination
  candidate RouteMethod.host destination = branch_ancestor (λ branch. branch.host) destination
  candidate RouteMethod.region destination = branch_ancestor (λ branch. branch.region) destination
  candidate RouteMethod.zone destination = branch_ancestor (λ branch. some branch.zone) destination

  unfoldable pub branch_matches : BranchKind → Address → Nodelist.Branch → Bool
  branch_matches BranchKind.zone root branch = branch.zone =? root
  branch_matches BranchKind.region root branch = branch.region =? some root
  branch_matches BranchKind.host root branch = branch.host =? some root
  branch_matches BranchKind.hub root branch = branch.hub =? some root

  unfoldable pub independent_matches : IndependentKind → Address → Nodelist.Branch → Bool
  independent_matches IndependentKind.zone root branch =
      branch.zone =? root
      && (not (is_some branch.region) && (not (is_some branch.host) && not (is_some branch.hub)))
  independent_matches IndependentKind.region root branch =
      branch.region =? some root && (not (is_some branch.host) && not (is_some branch.hub))

  unfoldable pub selector_matches : Selector → Identity → Bool
  unfolding branch_matches independent_matches
  selector_matches Selector.all identity = true
  selector_matches (Selector.address address) identity = identity.address =? address
  selector_matches (Selector.address_pattern pattern) identity = matches pattern identity.address
  selector_matches (Selector.peer name) identity = named_peer name =? some identity
  selector_matches (Selector.branch kind root) identity =
      is_some_and (λ entry. branch_matches kind root entry.branch) (get nodelist identity.address)
  selector_matches (Selector.independent kind root) identity =
      is_some_and (λ entry. independent_matches kind root entry.branch)
        (get nodelist identity.address)

  -- `iter().enumerate().find(..)` over the rules, from an index on.
  unfoldable pub find_rule : ℕ → List RouteRule → Identity → Option (ℕ × RouteRule)
  find_rule index [] destination = none
  find_rule index (rule ∷ rules) destination =
      if selector_matches rule.destination destination
      then some (index, rule)
      else find_rule (index + 1) rules destination

  -- The rule's index and the methods to try.
  unfoldable pub select_methods : Routes → Identity → Option ℕ × List RouteMethod
  unfolding find_rule
  select_methods routes destination = elim (find_rule 0 routes.routes destination) [
    | none ↦ (
      none,
      if is_anonymous destination.address then anonymous_defaults else non_anonymous_defaults,
    )
    | some (index, rule) ↦ (some index, rule.methods)
  ]

  -- The loop over the methods, from an index on.
  unfoldable pub try_methods :
      Option ℕ → ℕ → List RouteMethod → Identity → List Identity → Result RouteFailure Commitment
  try_methods rule index [] destination vias = err unroutable
  try_methods rule index (method ∷ methods) destination vias = elim (candidate method destination) [
    | none ↦ try_methods rule (index + 1) methods destination vias
    | some (next_hop, passive) ↦
        if any (λ via. same_system_as via next_hop) vias
        then err loop
        else ok (record {
          next_hop = next_hop;
          passive = passive;
          route_rule = rule;
          method_index = index;
        })
  ]

  unfoldable pub route_netmail : Routes → Identity → List Identity → Result RouteFailure Commitment
  route_netmail routes destination vias =
      if is_some_and (λ entry. is_down entry.keyword) (get nodelist destination.address)
      then err unroutable
      else let (rule, methods) = select_methods routes destination in
        try_methods rule 0 methods destination vias

  abbrev pub kind_applies : FailureKind → FailureKind → Bool
  kind_applies FailureKind.any_kind kind = true
  kind_applies FailureKind.relay_denied FailureKind.relay_denied = true
  kind_applies FailureKind.rejected FailureKind.rejected = true
  kind_applies _ kind = false

  unfoldable pub failure_applies : FailureKind → Identity → Identity → FailureRule → Bool
  failure_applies kind origin destination rule =
      kind_applies rule.kind kind
      && (selector_matches rule.origin origin && selector_matches rule.destination destination)

  -- The array of two policies is a pair: for RelayDenied and for Rejected.
  unfoldable pub failure_policies :
      Routes → Identity → Identity → Option ℕ → Option FailurePolicy → FailurePolicy × FailurePolicy
  unfolding failure_applies
  failure_policies routes origin destination route_rule relay_override =
      let selected =
        or_else (route_rule >>= λ index. get_elem? routes.routes index >>= λ rule. rule.on_failure)
          relay_override in
      let policy = λ (kind : FailureKind).
        unwrap_or
          (elim (find (failure_applies kind origin destination) routes.failures) [
            | none ↦ routes.failure_default
            | some rule ↦ rule.policy
          ])
          selected in
      (policy FailureKind.relay_denied, policy FailureKind.rejected)

unfoldable pub routes_for : ConfigurationSet → IdentityRef → Option Routes
routes_for config local = find (λ routes. identity_ref_beq routes.local local) config.routes
