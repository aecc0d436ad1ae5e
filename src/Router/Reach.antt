-- ===== src/Router/Reach.antt =====
-- crates/tith-router/src/lib.rs, `candidate` and `eligible_ancestor`: why a next hop can be reached.
use tith.Base.{
  ◌≡◌, inl, inr, refl, subst, arith, Bool, true, false, not, ◌||◌, Option-cases, Option, none, some,
  option_eq, and-true_iff, ◌==◌,
}
use tith.Base.Options.{
  >>=-eq-some, is_some, is_some_and, then_some, then_some-eq-some, some-injective, if-eq-some,
}
use tith.Wire.Address.{Address, Identity, address_eq, identity_eq, is_anonymous, new_address}
use tith.Config.{Name, Peer, RouteMethod, ConfigurationSet}
use tith.Nodelist
use tith.Nodelist.{Nodelist, get}
use tith.Router.{
  Resolver, is_empty, ok_value, exact_peer, usable, named_peer, eligible_ancestor, listed_ancestor,
  configured_ancestor, branch_ancestor, boss_ancestor, direct_candidate, candidate,
}
use tith.Router.Choice.{is_listed_down}

none_some {ℓ κ} : {A : Type ℓ} {P : Type κ} {x : A} → none ≡ some x → P
none_some e = cc

module _ (config : ConfigurationSet) (nodelist : Nodelist) (resolver : Resolver) where
  -- A next hop is the peer of Via, the destination that Hold keeps, a system with an endpoint
  -- to call, or a configured peer without endpoints, which has to call.
  pub data Reach (method : RouteMethod) (destination : Identity) : Identity × Bool → Type 0 where
    named :
        (name : Name) (hop : Identity)
        → method ≡ RouteMethod.via name
        → named_peer config nodelist resolver name ≡ some hop
        → Reach method destination (hop, false)
    held :
        method ≡ RouteMethod.hold
        → is_listed_down nodelist destination ≡ false
        → Reach method destination (destination, true)
    callable :
        (hop : Identity)
        → usable config nodelist resolver hop ≡ true
        → Reach method destination (hop, false)
    calling :
        (hop : Identity) (peer : Peer)
        → exact_peer config nodelist resolver hop ≡ some peer
        → is_empty peer.endpoints ≡ true
        → Reach method destination (hop, true)

  usable-peer :
      (i : Identity) (peer : Peer)
      → exact_peer config nodelist resolver i ≡ some peer
      → is_empty peer.endpoints ≡ false
      → usable config nodelist resolver i ≡ true
  unfolding usable
  usable-peer i peer e h = rw (e, h)

  module _ (method : RouteMethod) (destination : Identity) where
    peer-Reach :
        (i : Identity) (peer : Peer) (passive : Bool)
        → exact_peer config nodelist resolver i ≡ some peer
        → is_empty peer.endpoints ≡ passive
        → Reach method destination (i, passive)
    peer-Reach i peer true e h = calling i peer e h
    peer-Reach i peer false e h = callable i (usable-peer i peer e h)

    eligible-Reach :
        (i : Identity) (hop : Identity × Bool)
        → eligible_ancestor config nodelist resolver i ≡ some hop
        → Reach method destination hop
    unfolding eligible_ancestor
    eligible-Reach i hop e = elim (Option-cases (exact_peer config nodelist resolver i)) [
      | inr (peer, h) ↦
          let e1 =
            subst
              (λ o.
                then_some (is_some o || usable config nodelist resolver i)
                  (i, is_some_and (λ p. is_empty p.endpoints) o)
                ≡ some hop)
              h e in
          subst (Reach method destination)
            (then_some-eq-some true (i, is_empty peer.endpoints) e1).1 (peer-Reach i peer _ h refl)
      | inl h ↦
          let e1 =
            subst
              (λ o.
                then_some (is_some o || usable config nodelist resolver i)
                  (i, is_some_and (λ p. is_empty p.endpoints) o)
                ≡ some hop)
              h e in
          let r = then_some-eq-some (usable config nodelist resolver i) (i, false) e1 in
          subst (Reach method destination) r.1 (callable i r.0)
    ]

    listed-Reach :
        (address : Address) (hop : Identity × Bool)
        → listed_ancestor config nodelist resolver address ≡ some hop
        → Reach method destination hop
    unfolding listed_ancestor
    listed-Reach address hop e =
        let (entry, a, e1) = >>=-eq-some (get nodelist address) _ e in
        let (service, b, e2) = >>=-eq-some entry.tith _ e1 in
        let (key, c, e3) = >>=-eq-some (resolver address) _ e2 in eligible-Reach _ hop e3

    branch-Reach :
        (field : Nodelist.Branch → Option Address) (hop : Identity × Bool)
        → branch_ancestor config nodelist resolver field destination ≡ some hop
        → Reach method destination hop
    unfolding branch_ancestor
    branch-Reach field hop e =
        let (entry, a, e1) = >>=-eq-some (get nodelist destination.address) _ e in
        let (address, b, e2) = >>=-eq-some (field entry.branch) _ e1 in listed-Reach address hop e2

    configured-Reach :
        (field : Peer → Option Name) (hop : Identity × Bool)
        → configured_ancestor config nodelist resolver field destination ≡ some hop
        → Reach method destination hop
    unfolding configured_ancestor
    configured-Reach field hop e =
        let (peer, a, e1) = >>=-eq-some (exact_peer config nodelist resolver destination) _ e in
        let (name, b, e2) = >>=-eq-some (field peer) _ e1 in
        let (i, c, e3) = >>=-eq-some (named_peer config nodelist resolver name) _ e2 in
        eligible-Reach i hop e3

    boss-Reach :
        (hop : Identity × Bool)
        → boss_ancestor config nodelist resolver destination ≡ some hop
        → Reach method destination hop
    unfolding boss_ancestor
    boss-Reach hop e = elim (if-eq-some (destination.address.point == 0) none _ e) [
      | inl (h, e1) ↦ none_some e1
      | inr (h, e1) ↦
          let (address, a, e2) =
            >>=-eq-some
              (ok_value (
                new_address destination.address.domain destination.address.zone
                  destination.address.net destination.address.node 0))
              _ e1 in
          listed-Reach address hop e2
    ]

    direct-Reach :
        (hop : Identity × Bool)
        → direct_candidate config nodelist resolver destination ≡ some hop
        → Reach method destination hop
    unfolding direct_candidate
    direct-Reach hop e = elim (if-eq-some (is_anonymous destination.address) _ _ e) [
      | inl (h, e1) ↦
          let (peer, a, e2) = >>=-eq-some (exact_peer config nodelist resolver destination) _ e1 in
          let (b, e3) = then_some-eq-some (not (is_empty peer.endpoints)) (destination, false) e2 in
          subst (Reach method destination) e3
            (callable destination (usable-peer destination peer a (ground (arith, b))))
      | inr (h, e1) ↦
          let (b, e2) = then_some-eq-some _ (destination, false) e1 in
          subst (Reach method destination) e2 (callable destination ((and-true_iff _ _).0 b).1)
    ]

  -- Every candidate, and so every next hop that a commitment names, is one of those of Reach.
  pub candidate-Reach :
      (method : RouteMethod) (destination : Identity) (hop : Identity × Bool)
      → candidate config nodelist resolver method destination ≡ some hop
      → Reach method destination hop
  unfolding candidate
  candidate-Reach (RouteMethod.via name) destination hop e =
      let (i, a, e1) = >>=-eq-some (named_peer config nodelist resolver name) _ e in
      subst (Reach (RouteMethod.via name) destination) (some-injective e1) (named name i refl a)
  candidate-Reach RouteMethod.direct destination hop e =
      direct-Reach RouteMethod.direct destination hop e
  candidate-Reach RouteMethod.hold destination hop e =
      let (b, e1) = then_some-eq-some _ (destination, true) e in
      subst (Reach RouteMethod.hold destination) e1 (held refl (ground (arith, b)))
  candidate-Reach RouteMethod.boss destination hop e =
      elim (if-eq-some (is_anonymous destination.address) _ _ e) [
        | inl (h, e1) ↦ configured-Reach RouteMethod.boss destination _ hop e1
        | inr (h, e1) ↦ boss-Reach RouteMethod.boss destination hop e1
      ]
  candidate-Reach RouteMethod.hub destination hop e =
      elim (if-eq-some (is_anonymous destination.address) _ _ e) [
        | inl (h, e1) ↦ configured-Reach RouteMethod.hub destination _ hop e1
        | inr (h, e1) ↦ branch-Reach RouteMethod.hub destination _ hop e1
      ]
  candidate-Reach RouteMethod.host destination hop e =
      branch-Reach RouteMethod.host destination _ hop e
  candidate-Reach RouteMethod.region destination hop e =
      branch-Reach RouteMethod.region destination _ hop e
  candidate-Reach RouteMethod.zone destination hop e =
      branch-Reach RouteMethod.zone destination (λ branch. some branch.zone) hop e
