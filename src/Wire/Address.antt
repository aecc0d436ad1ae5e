-- ===== src/Wire/Address.antt =====
-- crates/tith-wire/src/address.rs and identity.rs: addresses, identities, and what their
-- constructors admit. A domain is the list of its code points. crates/tith-crypto's fixed-size byte
-- arrays (`PublicKey`, `Signature`, `TlvHash`) are lists of bytes.
use tith.Base.{
  ℕ, ◌≡◌, ◌↔◌, arith, Bool, true, false, not, ◌&&◌, ◌||◌, List, [], ◌∷◌, any, leb, ◌==◌,
  if◌then◌else◌, Result, ok, err, ◌>>◌, ℤ, pos, minus_one, int_leb, Eq, ◌=?◌, nat_eq, list_eq,
  int_eq, list_beq_iff, int_beq_iff,
}

pub data AddressError : Type 0 where
  empty_domain invalid_domain missing_zone invalid_number : AddressError
  out_of_range non_canonical invalid_order invalid_wildcard : AddressError

pub record Address : Type 0 where
  pub domain : List ℕ
  pub zone : ℤ
  pub net : ℤ
  pub node : ℤ
  pub point : ℕ

-- The derived `PartialEq`.
abbrev pub address_beq : Address → Address → Bool
address_beq a b =
    a.domain =? b.domain
    && (a.zone =? b.zone && (a.net =? b.net && (a.node =? b.node && a.point =? b.point)))

pub address_beq_iff : (a b : Address) → (address_beq a b ≡ true) ↔ (a ≡ b)
address_beq_iff a b = ground (
  arith,
  list_beq_iff a.domain b.domain,
  int_beq_iff a.zone b.zone,
  int_beq_iff a.net b.net,
  int_beq_iff a.node b.node,
)

instance abbrev pub address_eq : Eq Address
address_eq = record { beq = address_beq; beq_iff = address_beq_iff }

-- `const fn tts_whitespace`.
unfoldable pub tts_whitespace : ℕ → Bool
tts_whitespace c =
    (leb 0x9 c && leb c 0xd)
    || (c == 0x20
        || (c == 0x85
            || (c == 0xa0
                || (c == 0x1680
                    || ((leb 0x2000 c && leb c 0x200a)
                        || (c == 0x2028
                            || (c == 0x2029 || (c == 0x202f || (c == 0x205f || c == 0x3000)))))))))

-- `char::is_control`: Unicode's category Cc.
unfoldable pub is_control : ℕ → Bool
is_control c = leb c 0x1f || (leb 0x7f c && leb c 0x9f)

unfoldable pub prohibited : ℕ → Bool
unfolding is_control
prohibited c = is_control c || (c == b'#' || (c == b'*' || (c == b',' || (c == b'<' || c == b'>'))))

abbrev pub head_is : (ℕ → Bool) → List ℕ → Bool
head_is p [] = false
head_is p (c ∷ cs) = p c

abbrev pub last_is : (ℕ → Bool) → List ℕ → Bool
last_is p [] = false
last_is p (c ∷ []) = p c
last_is p (c ∷ (d ∷ ds)) = last_is p (d ∷ ds)

unfoldable pub validate_domain : List ℕ → Result AddressError (Unit {0})
validate_domain [] = err empty_domain
validate_domain (c ∷ cs) =
    if head_is tts_whitespace (c ∷ cs) || last_is tts_whitespace (c ∷ cs)
    then err invalid_domain
    else if any prohibited (c ∷ cs)
    then err invalid_domain
    else ok tt

-- `(low..=high).contains(&value)`.
abbrev pub contains : ℤ → ℤ → ℤ → Bool
contains low high value = int_leb low value && int_leb value high

abbrev pub p2p : List ℕ
p2p = b'p' ∷ b'2' ∷ b'p' ∷ []

-- The checks of `Address::new` behind the domain's.
unfoldable pub check_numbers : List ℕ → ℤ → ℤ → ℤ → ℕ → Result AddressError (Unit {0})
check_numbers domain zone net node point =
    if domain =? p2p && not (zone =? minus_one)
    then err invalid_domain
    else if not (zone =? minus_one) && not (contains (pos 1) (pos 32767) zone)
    then err out_of_range
    else if zone =? minus_one
    then if not (net =? minus_one) || (not (node =? minus_one) || not (point == 0))
      then err out_of_range
      else ok tt
    else if not (contains (pos 1) (pos 32767) net) || not (contains (pos 0) (pos 32767) node)
    then err out_of_range
    else ok tt

unfoldable pub new_address : List ℕ → ℤ → ℤ → ℤ → ℕ → Result AddressError Address
unfolding check_numbers
new_address domain zone net node point = do
  validate_domain domain
  check_numbers domain zone net node point
  ok (record { domain = domain; zone = zone; net = net; node = node; point = point })

unfoldable pub anonymous : List ℕ → Result AddressError Address
unfolding new_address
anonymous domain = new_address domain minus_one minus_one minus_one 0

unfoldable pub is_anonymous : Address → Bool
is_anonymous self = self.zone =? minus_one

abbrev pub PublicKey : Type 0
PublicKey = List ℕ

abbrev pub Signature : Type 0
Signature = List ℕ

abbrev pub TlvHash : Type 0
TlvHash = List ℕ

pub record Identity : Type 0 where
  pub address : Address
  pub public_key : PublicKey

-- The derived `PartialEq`.
abbrev pub identity_beq : Identity → Identity → Bool
identity_beq a b = a.address =? b.address && a.public_key =? b.public_key

pub identity_beq_iff : (a b : Identity) → (identity_beq a b ≡ true) ↔ (a ≡ b)
identity_beq_iff a b =
    ground (arith, address_beq_iff a.address b.address, list_beq_iff a.public_key b.public_key)

instance abbrev pub identity_eq : Eq Identity
identity_eq = record { beq = identity_beq; beq_iff = identity_beq_iff }

unfoldable pub same_system_as : Identity → Identity → Bool
unfolding is_anonymous
same_system_as self other =
    self.address =? other.address
    && (not (is_anonymous self.address) || self.public_key =? other.public_key)
