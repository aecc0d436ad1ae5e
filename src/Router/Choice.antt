-- ===== src/Router/Choice.antt =====
-- crates/tith-router/src/lib.rs, `route_netmail`: which method decides, and with which outcome.
use tith.Base.{
  ℕ, suc, ◌+◌, ◌≡◌, ◌⊎◌, inl, inr, refl, sym, ap, subst, ◌∙◌, arith, Bool, true, false, Bool-cases,
  Option-cases, List, [], ◌∷◌, ◌++◌, any, length, All, Option, none, some, Result, ok, err,
}
use tith.Base.Options.{is_some_and}
use tith.Wire.Address.{Identity, same_system_as}
use tith.Config.{Routes, RouteMethod, ConfigurationSet}
use tith.Nodelist.{Nodelist, get}
use tith.Router.{
  Resolver, RouteFailure, unroutable, loop, Commitment, is_down, candidate, select_methods,
  try_methods, route_netmail,
}

abbrev pub is_listed_down : Nodelist → Identity → Bool
is_listed_down nodelist destination =
    is_some_and (λ entry. is_down entry.keyword) (get nodelist destination.address)

abbrev pub is_looping : List Identity → Identity → Bool
is_looping vias hop = any (λ via. same_system_as via hop) vias

-- A commitment takes apart into the outcome that `try_methods` builds.
commitment_eq :
    (c : Commitment) (n : ℕ) (rule : Option ℕ)
    → c.route_rule ≡ rule
    → c.method_index ≡ n
    → record { next_hop = c.next_hop; passive = c.passive; route_rule = rule; method_index = n } ≡ c
commitment_eq c n rule e h = rw (sym e, sym h)

module _ (config : ConfigurationSet) (nodelist : Nodelist) (resolver : Resolver) where
  -- The method at an index is the first with a candidate, and this is its candidate.
  pub record Deciding (methods : List RouteMethod) (destination : Identity) (index : ℕ)
      (hop : Identity × Bool) : Type 0 where
    pub earlier : List RouteMethod
    pub method : RouteMethod
    pub later : List RouteMethod
    pub split : methods ≡ earlier ++ method ∷ later
    pub position : length earlier ≡ index
    pub fruitless : All (λ m. candidate config nodelist resolver m destination ≡ none) earlier
    pub found : candidate config nodelist resolver method destination ≡ some hop

  abbrev pub Fruitless : List RouteMethod → Identity → Type 0
  Fruitless methods destination =
      All (λ m. candidate config nodelist resolver m destination ≡ none) methods

  try_methods-Fruitless :
      (rule : Option ℕ) (n : ℕ) (methods : List RouteMethod) (destination : Identity)
      (vias : List Identity)
      → Fruitless methods destination
      → try_methods config nodelist resolver rule n methods destination vias ≡ err unroutable
  unfolding try_methods
  try_methods-Fruitless rule n [] destination vias h = refl
  try_methods-Fruitless rule n (method ∷ methods) destination vias h =
      rw (h.0, try_methods) (try_methods-Fruitless rule (n + 1) methods destination vias h.1)

  module _ (rule : Option ℕ) (destination : Identity) (vias : List Identity)
      (hop : Identity × Bool) where
    -- What the loop returns at the candidate that decides, by whether that is a loop.
    abbrev pub settled : Bool → ℕ → Result RouteFailure Commitment
    settled true n = err loop
    settled false n =
        ok (record { next_hop = hop.0; passive = hop.1; route_rule = rule; method_index = n })

    try_methods-settled :
        (earlier : List RouteMethod) (method : RouteMethod) (later : List RouteMethod) (n : ℕ)
        → Fruitless earlier destination
        → candidate config nodelist resolver method destination ≡ some hop
        → try_methods config nodelist resolver rule n (earlier ++ method ∷ later) destination vias
          ≡ settled (is_looping vias hop.0) (n + length earlier)
    unfolding try_methods
    try_methods-settled [] method later n h f = elim (Bool-cases (is_looping vias hop.0)) [
      | inl e ↦ rw (f, e, try_methods)
      | inr e ↦ rw (f, e, try_methods) (ap (settled false) (omega arith))
    ]
    try_methods-settled (m ∷ earlier) method later n h f =
        rw (h.0, try_methods)
          (try_methods-settled earlier method later (n + 1) h.1 f
            ∙ ap (settled (is_looping vias hop.0)) (omega arith))

  pub try_methods-cases :
      (methods : List RouteMethod) (destination : Identity)
      → Fruitless methods destination
        ⊎ ((index : ℕ) × (hop : Identity × Bool) × Deciding methods destination index hop)
  try_methods-cases [] destination = inl tt
  try_methods-cases (method ∷ methods) destination =
      elim (Option-cases (candidate config nodelist resolver method destination)) [
        | inr (hop, e) ↦ inr (
          0,
          hop,
          record {
            earlier = [];
            method = method;
            later = methods;
            split = refl;
            position = refl;
            fruitless = tt;
            found = e;
          },
        )
        | inl e ↦ elim (try_methods-cases methods destination) [
          | inl h ↦ inl (e, h)
          | inr (index, hop, d) ↦ inr (
            suc index,
            hop,
            record {
              earlier = method ∷ d.earlier;
              method = d.method;
              later = d.later;
              split = rw d.split;
              position = ap suc d.position;
              fruitless = (e, d.fruitless);
              found = d.found;
            },
          )
        ]
      ]

  module _ (routes : Routes) (destination : Identity) (vias : List Identity) where
    abbrev pub methods_for : List RouteMethod
    methods_for = (select_methods config nodelist resolver routes destination).1

    abbrev pub rule_for : Option ℕ
    rule_for = (select_methods config nodelist resolver routes destination).0

    abbrev pub Outcome : Type 0
    Outcome = Result RouteFailure Commitment

    route_netmail_down :
        is_listed_down nodelist destination ≡ true
        → route_netmail config nodelist resolver routes destination vias ≡ err unroutable
    unfolding route_netmail
    route_netmail_down h = rw h

    route_netmail_up :
        is_listed_down nodelist destination ≡ false
        → route_netmail config nodelist resolver routes destination vias
          ≡ try_methods config nodelist resolver
              (select_methods config nodelist resolver routes destination).0
              0
              methods_for
              destination
              vias
    unfolding route_netmail
    route_netmail_up h = rw h

    route_netmail-Fruitless :
        Fruitless methods_for destination
        → route_netmail config nodelist resolver routes destination vias ≡ err unroutable
    route_netmail-Fruitless h = elim (Bool-cases (is_listed_down nodelist destination)) [
      | inl e ↦ route_netmail_down e
      | inr e ↦ route_netmail_up e ∙ try_methods-Fruitless _ 0 methods_for destination vias h
    ]

    pub route_netmail-Deciding :
        (index : ℕ) (hop : Identity × Bool)
        → is_listed_down nodelist destination ≡ false
        → Deciding methods_for destination index hop
        → route_netmail config nodelist resolver routes destination vias
          ≡ settled
              (select_methods config nodelist resolver routes destination).0
              destination
              vias
              hop
              (is_looping vias hop.0)
              index
    route_netmail-Deciding index hop up d =
        route_netmail_up up
        ∙ ap (λ ms. try_methods config nodelist resolver rule_for 0 ms destination vias) d.split
        ∙ try_methods-settled rule_for destination vias hop d.earlier d.method d.later 0 d.fruitless
            d.found
        ∙ ap (settled rule_for destination vias hop (is_looping vias hop.0)) {y = index}
            (omega (arith, d.position))

    -- The three outcomes, each with what it takes.
    pub data Chosen : Outcome → Type 0 where
      down : is_listed_down nodelist destination ≡ true → Chosen (err unroutable)
      exhausted :
          is_listed_down nodelist destination ≡ false
          → Fruitless methods_for destination
          → Chosen (err unroutable)
      looped :
          (index : ℕ) (hop : Identity × Bool)
          → is_listed_down nodelist destination ≡ false
          → Deciding methods_for destination index hop
          → is_looping vias hop.0 ≡ true
          → Chosen (err loop)
      committed :
          (index : ℕ) (hop : Identity × Bool)
          → is_listed_down nodelist destination ≡ false
          → Deciding methods_for destination index hop
          → is_looping vias hop.0 ≡ false
          → Chosen (
              ok (record {
                next_hop = hop.0;
                passive = hop.1;
                route_rule = rule_for;
                method_index = index;
              }))

    settled-Chosen :
        (index : ℕ) (hop : Identity × Bool) (looping : Bool)
        → is_looping vias hop.0 ≡ looping
        → is_listed_down nodelist destination ≡ false
        → Deciding methods_for destination index hop
        → Chosen (settled rule_for destination vias hop looping index)
    settled-Chosen index hop true e up d = looped index hop up d e
    settled-Chosen index hop false e up d = committed index hop up d e

    -- `route_netmail` refuses a destination that is listed as Down, and one that no method of the
    -- selected list has a candidate for. Otherwise the first method with a candidate decides alone: a
    -- loop if a Via is the same system as the candidate, and else the commitment to it.
    pub route_netmail-Chosen :
        Chosen (route_netmail config nodelist resolver routes destination vias)
    route_netmail-Chosen = elim (Bool-cases (is_listed_down nodelist destination)) [
      | inl e ↦ subst Chosen (sym (route_netmail_down e)) (down e)
      | inr up ↦ elim (try_methods-cases methods_for destination) [
        | inl h ↦ subst Chosen (sym (route_netmail-Fruitless h)) (exhausted up h)
        | inr (index, hop, d) ↦
            subst Chosen (sym (route_netmail-Deciding index hop up d))
              (settled-Chosen index hop (is_looping vias hop.0) refl up d)
      ]
    ]
