-- ===== src/Wire/Validity.antt =====
-- crates/tith-wire/src/address.rs and identity.rs: which addresses `Address::new` makes, and that
-- being the same system is an equivalence.
use tith.Base.{
  ℕ, ◌≡◌, ◌↔◌, ◌⊎◌, sym, ap, ◌∙◌, arith, true, false, List, ok, >>=-eq-ok, ok-injective, ℤ, pos,
  minus_one, ◌=?◌, nat_eq, list_eq, int_eq, list_beq_iff, int_beq_iff,
}
use tith.Wire.Address.{
  Address, address_eq, address_beq_iff, identity_eq, Identity, is_anonymous, same_system_as,
  validate_domain, check_numbers, contains, p2p, new_address,
}

-- One system: the same address and, where that is anonymous, the same key.
abbrev pub SameSystem : Identity → Identity → Type 0
SameSystem a b =
    (a.address ≡ b.address) × ((is_anonymous a.address ≡ false) ⊎ (a.public_key ≡ b.public_key))

-- Two identities are the same system exactly where their addresses are equal and, if that address
-- is anonymous, their keys are equal too.
pub same_system_as-SameSystem : (a b : Identity) → (same_system_as a b ≡ true) ↔ SameSystem a b
unfolding same_system_as
same_system_as-SameSystem a b =
    ground (arith, address_beq_iff a.address b.address, list_beq_iff a.public_key b.public_key)

-- The two shapes of an address.
abbrev pub IsAnonymousShape : ℤ → ℤ → ℤ → ℕ → Type 0
IsAnonymousShape zone net node point =
    (zone ≡ minus_one) × (net ≡ minus_one) × (node ≡ minus_one) × (point ≡ 0)

abbrev pub IsNumberedShape : List ℕ → ℤ → ℤ → ℤ → Type 0
IsNumberedShape domain zone net node =
    ((domain =? p2p) ≡ false)
    × ((zone =? minus_one) ≡ false)
    × (contains (pos 1) (pos 32767) zone ≡ true)
    × (contains (pos 1) (pos 32767) net ≡ true)
    × (contains (pos 0) (pos 32767) node ≡ true)

check_numbers_iff :
    (domain : List ℕ) (zone net node : ℤ) (point : ℕ)
    → (check_numbers domain zone net node point ≡ ok tt)
      ↔ (IsAnonymousShape zone net node point ⊎ IsNumberedShape domain zone net node)
unfolding check_numbers
check_numbers_iff domain zone net node point =
    ground
      (arith, int_beq_iff zone minus_one, int_beq_iff net minus_one, int_beq_iff node minus_one)

made-IsChecked :
    (domain : List ℕ) (zone net node : ℤ) (point : ℕ) (a : Address)
    → new_address domain zone net node point ≡ ok a
    → (validate_domain domain ≡ ok tt)
      × (check_numbers domain zone net node point ≡ ok tt)
      × (a ≡ record { domain = domain; zone = zone; net = net; node = node; point = point })
unfolding new_address
made-IsChecked domain zone net node point a e =
    let (u, d, e1) = >>=-eq-ok (validate_domain domain) _ e in
    let (v, n, e2) = >>=-eq-ok (check_numbers domain zone net node point) _ e1 in
    (d, n, sym (ok-injective e2))

checked-make :
    (domain : List ℕ) (zone net node : ℤ) (point : ℕ)
    → validate_domain domain ≡ ok tt
    → check_numbers domain zone net node point ≡ ok tt
    → new_address domain zone net node point
      ≡ ok (record { domain = domain; zone = zone; net = net; node = node; point = point })
unfolding new_address
checked-make domain zone net node point d n = rw (d, n)

-- `Address::new` makes an address exactly of a valid domain with either all numbers absent, or a
-- domain other than p2p and numbers in their ranges; the address has these components.
pub new_address_iff :
    (domain : List ℕ) (zone net node : ℤ) (point : ℕ) (a : Address)
    → (new_address domain zone net node point ≡ ok a) ↔ (
        (validate_domain domain ≡ ok tt)
        × (IsAnonymousShape zone net node point ⊎ IsNumberedShape domain zone net node)
        × (a ≡ record { domain = domain; zone = zone; net = net; node = node; point = point }))
new_address_iff domain zone net node point a = (
  (λ e.
      let (d, n, same) = made-IsChecked domain zone net node point a e in
      (d, (check_numbers_iff domain zone net node point).0 n, same)),
  (λ h.
      checked-make domain zone net node point h.0
        ((check_numbers_iff domain zone net node point).1 h.1)
      ∙ ap ok (sym h.2)),
)
