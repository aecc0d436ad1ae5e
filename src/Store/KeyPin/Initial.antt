-- ===== src/Store/KeyPin/Initial.antt =====
-- crates/tith-store/src/key_pin.rs: the first key that is observed of an address stays.
use tith.Base.{
  ℕ, ◌≡◌, refl, ap, Bool-cases, ◌=?◌, nat_eq, list_eq, option_eq, Option, none, some, ok,
  ok-injective, inl, inr, ◌>>=◌, >>=-eq-ok, Option-cases,
}
use tith.Wire.Integer.{IsU64}
use tith.Wire.Address.{Address, PublicKey}
use tith.Store.Types.{Text}
use tith.Store.Table.{Tables}
use tith.Store.KeyPin.{
  KeyPin, InitialObservation, effective_key, established, unchanged, canonical_non_anonymous,
  resolve, encode_key_pin, existing, first_pin, observe_unless, observe_initial,
}
use tith.Store.KeyPin.Layout.{IsKey, IsStorablePin}
use tith.Store.KeyPin.Stored.{existing-insert}

first_pin-IsStorablePin :
    (key : PublicKey) (observed : ℕ)
    → IsKey key
    → IsU64 observed
    → IsStorablePin (first_pin key observed)
unfolding first_pin
first_pin-IsStorablePin key observed hk ht = record {
  current = hk;
  anchor = tt;
  predecessor = tt;
  observed = ht;
}

-- An address without an effective key has no anchor, so the first key is the effective one.
resolve-fresh :
    (old : Option KeyPin) (anchor : Option PublicKey) (key : PublicKey) (observed : ℕ)
    → resolve old anchor ≡ none
    → resolve (some (first_pin key observed)) anchor ≡ some key
unfolding resolve first_pin
resolve-fresh none none key observed h = refl
resolve-fresh (some pin) none key observed h = cc
resolve-fresh none (some k) key observed h = cc
resolve-fresh (some pin) (some k) key observed h = elim (Bool-cases (pin.anchor =? some k)) [
  | inl e ↦ cc (rw e at h)
  | inr e ↦ cc (rw e at h)
]

module _ {T : Type 0} ⦃tables : Tables T⦄ where
  observed_again :
      (address : Text) (key later_key : PublicKey) (anchor : Option PublicKey) (observed later : ℕ)
      (pins pins' : T) (first : InitialObservation) (old : Option KeyPin)
      → IsKey key
      → IsU64 observed
      → existing address pins ≡ ok old
      → observe_unless address key observed pins (resolve old anchor) ≡ (first, pins')
      → (existing address pins' >>= λ pin.
          ok (observe_unless address later_key later pins' (resolve pin anchor)))
        ≡ ok (unchanged (effective_key first), pins')
  unfolding observe_unless
  observed_again address key later_key anchor observed later pins pins' first old hk ht before h =
      elim (Option-cases (resolve old anchor)) [
        | inl fresh ↦
            let same : (
              established (first_pin key observed),
              tables.insert address (encode_key_pin (first_pin key observed)) pins,
            )
                ≡ (first, pins') =
              rw fresh at h in
            rw
              (
                ← ap (λ (x : InitialObservation × T). x.1) same,
                ← ap (λ (x : InitialObservation × T). x.0) same,
                existing-insert address (first_pin key observed) pins
                    (first_pin-IsStorablePin key observed hk ht),
                resolve-fresh old anchor key observed fresh,
              )
              (unfold effective_key first_pin in refl)
        | inr (k, e) ↦
            let same : (unchanged k, pins) ≡ (first, pins') = rw e at h in
            rw
              (
                ← ap (λ (x : InitialObservation × T). x.1) same,
                ← ap (λ (x : InitialObservation × T). x.0) same,
                before,
                e,
              )
              (unfold effective_key in refl)
      ]

  -- The first key that is observed stays: whatever key is observed of an address later, under the
  -- same anchor and at any time, the answer is the effective key of the first observation, and
  -- nothing changes.
  pub observe_initial-observe_initial :
      (self : Address) (key later_key : PublicKey) (anchor : Option PublicKey) (observed later : ℕ)
      (pins pins' : T) (first : InitialObservation)
      → IsKey key
      → IsU64 observed
      → observe_initial self key anchor observed pins ≡ ok (first, pins')
      → observe_initial self later_key anchor later pins'
        ≡ ok (unchanged (effective_key first), pins')
  unfolding observe_initial
  observe_initial-observe_initial self key later_key anchor observed later pins pins' first hk ht
        h =
      let named = >>=-eq-ok (canonical_non_anonymous self) _ h in
      let found = >>=-eq-ok (existing named.0 pins) _ named.2 in
      rw named.1 (
        observed_again named.0 key later_key anchor observed later pins pins' first found.0 hk ht
          found.1 (ok-injective found.2))
