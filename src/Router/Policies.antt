-- ===== src/Router/Policies.antt =====
-- crates/tith-router/src/lib.rs, `failure_policies` and `selector_matches`: where a failure policy
-- comes from, and how the kinds of selectors relate.
use tith.Base.{
  ℕ, ◌≡◌, inl, inr, refl, sym, subst, Bool, true, false, Bool-cases, List, [], ◌∷◌, ◌++◌, All,
  get_elem?, Option, none, some, and-true_iff, if◌then◌else◌,
}
use tith.Base.Options.{◌>>=◌, is_some_and, or_else, unwrap_or}
use tith.Wire.Address.{Address, Identity}
use tith.Config.{
  BranchKind, IndependentKind, Selector, FailureKind, FailurePolicy, FailureRule, Routes,
  ConfigurationSet,
}
use tith.Nodelist
use tith.Nodelist.{Nodelist, get}
use tith.Router.{
  Resolver, find, failure_applies, failure_policies, selector_matches, branch_matches,
  independent_matches,
}

-- A list split at the first element that passes a test, or the fact that none passes.
module _ {A : Type 0} (p : A → Bool) where
  pub data Search : List A → Option A → Type 0 where
    absent : (xs : List A) → All (λ x. p x ≡ false) xs → Search xs none
    first :
        (earlier : List A) (x : A) (later : List A)
        → All (λ y. p y ≡ false) earlier
        → p x ≡ true
        → Search (earlier ++ x ∷ later) (some x)

  Search-cons : (x : A) {xs : List A} {o : Option A} → p x ≡ false → Search xs o → Search (x ∷ xs) o
  Search-cons x e (absent xs h) = absent (x ∷ xs) (e, h)
  Search-cons x e (first earlier y later h f) = first (x ∷ earlier) y later (e, h) f

  pub find-Search : (xs : List A) → Search xs (find p xs)
  find-Search [] = absent [] tt
  find-Search (x ∷ xs) = elim (Bool-cases (p x)) [
    | inl e ↦
        subst (λ b. Search (x ∷ xs) (if b then some x else find p xs)) (sym e) (first [] x xs tt e)
    | inr e ↦
        subst (λ b. Search (x ∷ xs) (if b then some x else find p xs)) (sym e)
          (Search-cons x e (find-Search xs))
  ]

-- The override of the rule that supplied the methods.
abbrev pub rule_override : Routes → Option ℕ → Option FailurePolicy
rule_override routes route_rule =
    route_rule >>= λ index. get_elem? routes.routes index >>= λ rule. rule.on_failure

module _ (config : ConfigurationSet) (nodelist : Nodelist) (resolver : Resolver) where
  module _ (routes : Routes) (origin destination : Identity) where
    -- The sources of a policy for one kind of failure, in the order of their precedence.
    pub data Source (relay : Option FailurePolicy) (kind : FailureKind)
        : Option FailurePolicy → FailurePolicy → Type 0 where
      of_route : (policy : FailurePolicy) → Source relay kind (some policy) policy
      of_relay : (policy : FailurePolicy) → relay ≡ some policy → Source relay kind none policy
      of_failure :
          (rule : FailureRule)
          → relay ≡ none
          → Search
              (failure_applies config nodelist resolver kind origin destination)
              routes.failures
              (some rule)
          → Source relay kind none rule.policy
      of_default :
          relay ≡ none
          → Search
              (failure_applies config nodelist resolver kind origin destination)
              routes.failures
              none
          → Source relay kind none routes.failure_default

    abbrev fallback : Option FailureRule → FailurePolicy
    fallback o = elim o [ none ↦ routes.failure_default | some rule ↦ rule.policy ]

    fallback-Source :
        (kind : FailureKind) (o : Option FailureRule)
        → Search
            (failure_applies config nodelist resolver kind origin destination)
            routes.failures
            o
        → Source none kind none (fallback o)
    fallback-Source kind none s = of_default refl s
    fallback-Source kind (some rule) s = of_failure rule refl s

    policy-Source :
        (kind : FailureKind) (override relay : Option FailurePolicy)
        → Source relay kind override (
            unwrap_or
              (fallback (
                find
                  (failure_applies config nodelist resolver kind origin destination)
                  routes.failures))
              (or_else override relay))
    policy-Source kind (some policy) relay = of_route policy
    policy-Source kind none (some policy) = of_relay policy refl
    policy-Source kind none none = fallback-Source kind _ (find-Search _ routes.failures)

    -- For RelayDenied and for Rejected, the override of the route's rule comes before that of the
    -- relay rule, then the first Failure rule that applies to this kind, then the default.
    pub failure_policies-Source :
        (route_rule : Option ℕ) (relay : Option FailurePolicy)
        → Source relay FailureKind.relay_denied
            (rule_override routes route_rule)
            (failure_policies config nodelist resolver routes origin destination route_rule relay).0
          × Source relay FailureKind.rejected
              (rule_override routes route_rule)
              (failure_policies config nodelist resolver routes origin destination route_rule
                relay).1
    unfolding failure_policies
    failure_policies-Source route_rule relay =
        (policy-Source FailureKind.relay_denied _ relay, policy-Source FailureKind.rejected _ relay)

  abbrev pub branch_kind : IndependentKind → BranchKind
  branch_kind IndependentKind.zone = BranchKind.zone
  branch_kind IndependentKind.region = BranchKind.region

  independent-branch :
      (kind : IndependentKind) (root : Address) (branch : Nodelist.Branch)
      → independent_matches config nodelist resolver kind root branch ≡ true
      → branch_matches config nodelist resolver (branch_kind kind) root branch ≡ true
  unfolding independent_matches branch_matches
  independent-branch IndependentKind.zone root branch e = ((and-true_iff _ _).0 e).0
  independent-branch IndependentKind.region root branch e = ((and-true_iff _ _).0 e).0

  some_and_mono :
      {A : Type 0} (p q : A → Bool) (o : Option A)
      → ((a : A) → p a ≡ true → q a ≡ true)
      → is_some_and p o ≡ true
      → is_some_and q o ≡ true
  some_and_mono p q none h e = e
  some_and_mono p q (some a) h e = h a e

  -- Whatever an Independent selector matches, the Branch selector of the same kind and root does.
  pub selector_matches-independent :
      (kind : IndependentKind) (root : Address) (identity : Identity)
      → selector_matches config nodelist resolver (Selector.independent kind root) identity ≡ true
      → selector_matches config nodelist resolver (Selector.branch (branch_kind kind) root) identity
        ≡ true
  unfolding selector_matches
  selector_matches-independent kind root identity e =
      some_and_mono _ _ (get nodelist identity.address)
        (λ entry. independent-branch kind root entry.branch) e
