-- ===== src/Router/Runs.antt =====
-- A route over a configured hub, run and with the theorems at it.
use tith.Base.{ℕ, ◌≡◌, refl, true, false, List, [], ◌∷◌, none, some, ok, err, pos}
use tith.Wire.Address.{Address, Identity, address_eq, is_anonymous, same_system_as}
use tith.Config.{
  Name, Peer, Selector, RouteMethod, RouteRule, Routes, FailureKind, FailurePolicy, Disposition,
  Notification, ConfigurationSet, IndependentKind, BranchKind,
}
use tith.Config
use tith.Nodelist.{Keyword, Entry, Nodelist, get}
use tith.Router.{
  Resolver, loop, candidate, route_netmail, try_methods, select_methods, usable, exact_peer,
  peer_identity, named_peer, failure_applies, failure_policies, selector_matches,
}
use tith.Router.Choice.{Chosen, route_netmail-Chosen}
use tith.Router.Reach.{Reach, candidate-Reach}

abbrev net : List ℕ
net = b'n' ∷ []

abbrev hub_address : Address
hub_address = record { domain = net; zone = pos 1; net = pos 1; node = pos 2; point = 0 }

abbrev far_address : Address
far_address = record { domain = net; zone = pos 1; net = pos 1; node = pos 3; point = 0 }

abbrev keys : Resolver
keys address = some (7 ∷ [])

abbrev hub : Identity
hub = record { address = hub_address; public_key = 7 ∷ [] }

abbrev far : Identity
far = record { address = far_address; public_key = 7 ∷ [] }

abbrev hub_name : Name
hub_name = b'h' ∷ []

abbrev hub_peer : Peer
hub_peer = record {
  name = hub_name;
  address = hub_address;
  public_key = none;
  endpoints = record { server = net; port = 24555 } ∷ [];
  trust_on_first_use = false;
  boss = none;
  hub = none;
}

abbrev quiet : FailurePolicy
quiet = record { disposition = Disposition.dead_letter; notification = Notification.no_one }

abbrev loud : FailurePolicy
loud = record { disposition = Disposition.discard; notification = Notification.both }

abbrev over_hub : RouteRule
over_hub = record {
  destination = Selector.address far_address;
  methods = RouteMethod.direct ∷ RouteMethod.via hub_name ∷ RouteMethod.hold ∷ [];
  on_failure = none;
}

abbrev table : Routes
table = record {
  local = Config.IdentityRef.address hub_address;
  routes = over_hub ∷ [];
  relay = [];
  failures =
      record {
        kind = FailureKind.rejected;
        origin = Selector.all;
        destination = Selector.all;
        policy = loud;
      }
      ∷ [];
  failure_default = quiet;
}

abbrev config : ConfigurationSet
config = record { peers = (hub_name, hub_peer) ∷ []; routes = table ∷ [] }

abbrev far_entry : Entry
far_entry = record {
  keyword = Keyword.normal;
  address = far_address;
  tith = none;
  branch = record { zone = hub_address; region = none; host = none; hub = none };
}

abbrev listing : Nodelist
listing = (far_address, far_entry) ∷ []

run_via :
    route_netmail config listing keys table far []
    ≡ ok (record { next_hop = hub; passive = false; route_rule = some 0; method_index = 1 })
unfolding route_netmail get try_methods select_methods selector_matches candidate is_anonymous
    usable exact_peer named_peer same_system_as
run_via = refl

run_loop : route_netmail config listing keys table far (hub ∷ []) ≡ err loop
unfolding route_netmail get try_methods select_methods selector_matches candidate is_anonymous
    usable exact_peer named_peer same_system_as
run_loop = refl

route_netmail-Chosen_example :
    Chosen config listing keys table far [] (route_netmail config listing keys table far [])
route_netmail-Chosen_example = route_netmail-Chosen config listing keys table far []

run_candidate : candidate config listing keys (RouteMethod.via hub_name) far ≡ some (hub, false)
unfolding candidate named_peer peer_identity is_anonymous
run_candidate = refl

candidate-Reach_example : Reach config listing keys (RouteMethod.via hub_name) far (hub, false)
candidate-Reach_example =
    candidate-Reach config listing keys (RouteMethod.via hub_name) far (hub, false) run_candidate

run_policies : failure_policies config listing keys table hub far (some 0) none ≡ (quiet, loud)
unfolding failure_policies failure_applies selector_matches
run_policies = refl

run_independent :
    selector_matches config listing keys (Selector.independent IndependentKind.zone hub_address) far
    ≡ true
unfolding selector_matches get
run_independent = refl
