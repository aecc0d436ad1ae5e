-- ===== src/Router/Defaults.antt =====
-- crates/tith-router/src/lib.rs, `route_netmail` where no rule matches: the default methods.
use tith.Base.{
  ℕ, ◌+◌, ◌≡◌, ◌≢◌, sym, ap, subst, ◌∙◌, inl, inr, refl, Bool, true, false, List, [], ◌∷◌, All,
  Option, none, some, err,
}
use tith.Base.Options.{none-ne-some}
use tith.Wire.Address.{Identity, is_anonymous}
use tith.Config.{Routes, RouteMethod, RouteRule, ConfigurationSet}
use tith.Nodelist.{Nodelist}
use tith.Router.{
  Resolver, unroutable, candidate, find_rule, select_methods, route_netmail, selector_matches,
  anonymous_defaults, non_anonymous_defaults,
}
use tith.Router.Choice.{
  is_listed_down, Fruitless, settled, is_looping, methods_for, route_netmail-Deciding,
  try_methods-cases,
}

module _ (config : ConfigurationSet) (nodelist : Nodelist) (resolver : Resolver)
    (destination : Identity) where
  candidate-hold :
      is_listed_down nodelist destination ≡ false
      → candidate config nodelist resolver RouteMethod.hold destination ≡ some (destination, true)
  unfolding candidate
  candidate-hold h = rw h

  -- No rule of a list selects the destination.
  abbrev pub Unmatched : List RouteRule → Type 0
  Unmatched rules =
      All (λ rule. selector_matches config nodelist resolver rule.destination destination ≡ false)
        rules

  find_rule-none :
      (n : ℕ) (rules : List RouteRule)
      → Unmatched rules
      → find_rule config nodelist resolver n rules destination ≡ none
  unfolding find_rule
  find_rule-none n [] h = refl
  find_rule-none n (rule ∷ rules) h = rw (h.0, find_rule-none (n + 1) rules h.1)

  -- The methods tried where no rule selects the destination.
  abbrev defaults : Bool → List RouteMethod
  defaults true = anonymous_defaults
  defaults false = non_anonymous_defaults

  select_methods-defaults :
      (routes : Routes) (anonymity : Bool)
      → is_anonymous destination.address ≡ anonymity
      → Unmatched routes.routes
      → select_methods config nodelist resolver routes destination ≡ (none, defaults anonymity)
  unfolding select_methods
  select_methods-defaults routes true e h = rw (find_rule-none 0 routes.routes h, e, select_methods)
  select_methods-defaults routes false e h =
      rw (find_rule-none 0 routes.routes h, e, select_methods)

  defaults-ne-Fruitless :
      (anonymity : Bool)
      → is_listed_down nodelist destination ≡ false
      → ¬ Fruitless config nodelist resolver (defaults anonymity) destination
  defaults-ne-Fruitless true up h = none-ne-some (sym h.1.1.1.0 ∙ candidate-hold up)
  defaults-ne-Fruitless false up h = none-ne-some (sym h.1.1.1.1.1.1.0 ∙ candidate-hold up)

  settled-ne-unroutable :
      (rule : Option ℕ) (vias : List Identity) (hop : Identity × Bool) (looping : Bool) (n : ℕ)
      → settled config nodelist resolver rule destination vias hop looping n ≢ err unroutable
  settled-ne-unroutable rule vias hop true n e = cc
  settled-ne-unroutable rule vias hop false n e = cc

  -- A destination that is not listed as Down and that no rule selects is never unroutable: the
  -- default methods end with Hold.
  pub route_netmail-ne-unroutable :
      (routes : Routes) (vias : List Identity)
      → is_listed_down nodelist destination ≡ false
      → Unmatched routes.routes
      → route_netmail config nodelist resolver routes destination vias ≢ err unroutable
  route_netmail-ne-unroutable routes vias up unmatched e =
      elim (try_methods-cases config nodelist resolver
        (methods_for config nodelist resolver routes destination vias) destination) [
          | inl h ↦ defaults-ne-Fruitless (is_anonymous destination.address) up (
              subst (λ ms. Fruitless config nodelist resolver ms destination)
                (ap (λ p. p.1) (select_methods-defaults routes _ refl unmatched)) h)
          | inr (index, hop, d) ↦ settled-ne-unroutable _ vias hop (is_looping vias hop.0) index (
              sym (
                route_netmail-Deciding config nodelist resolver routes destination vias index hop up
                  d)
              ∙ e)
        ]
