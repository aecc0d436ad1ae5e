-- ===== src/Wire/Pattern.antt =====
-- crates/tith-wire/src/address.rs: patterns of addresses, once parsed, and what they match.
use tith.Base.{
  ℕ, Bool, true, not, ◌&&◌, List, any, ℤ, pos, minus_one, int_eq, nat_eq, list_eq, ◌=?◌,
}
use tith.Wire.Address.{Address, contains}

pub data DomainPattern : Type 0 where
  any_domain : DomainPattern
  exact_domain : List ℕ → DomainPattern
  domain_list : List (List ℕ) → DomainPattern

pub data NumberPattern : Type 0 where
  any_number : NumberPattern
  exact_number : ℤ → NumberPattern
  number_list : List (ℤ × ℤ) → NumberPattern

pub record AddressPattern : Type 0 where
  pub domain : DomainPattern
  pub zone : NumberPattern
  pub net : NumberPattern
  pub node : NumberPattern
  pub point : NumberPattern

unfoldable pub match_domain : DomainPattern → List ℕ → Bool
match_domain any_domain value = true
match_domain (exact_domain expected) value = expected =? value
match_domain (domain_list values) value = any (λ expected. expected =? value) values

unfoldable pub match_number : NumberPattern → ℤ → Bool
match_number any_number value = not (value =? minus_one)
match_number (exact_number expected) value = expected =? value
match_number (number_list ranges) value = any (λ r. contains r.0 r.1 value) ranges

unfoldable pub matches : AddressPattern → Address → Bool
unfolding match_domain match_number
matches self address =
    match_domain self.domain address.domain
    && (match_number self.zone address.zone
        && (match_number self.net address.net
            && (match_number self.node address.node
                && match_number self.point (pos address.point))))
