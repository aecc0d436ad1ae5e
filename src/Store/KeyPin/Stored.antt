-- ===== src/Store/KeyPin/Stored.antt =====
-- crates/tith-store/src/key_pin.rs: what is read of the pins after one is stored.
use tith.Base.{
  ℕ, ◌≡◌, ◌≢◌, refl, sym, ap, ◌∙◌, Bool-cases, ◌=?◌, nat_eq, list_eq, option_eq, list_beq_iff, List,
  Option, none, some, ok, ok-injective, All, inl, inr, >>=-eq-ok,
}
use tith.Wire.Integer.{IsByte}
use tith.Wire.Address.{Address, is_anonymous}
use tith.Store.Inbound.Accept.{address_text}
use tith.Store.Types.{Text}
use tith.Store.Bytes.Reading.{IsOptional}
use tith.Store.Table.{find, Tables}
use tith.Store.Table.Entries.{find-put}
use tith.Store.Inbound.Resolved.{get-insert}
use tith.Store.KeyPin.{
  KeyPin, canonical_non_anonymous, encode_key_pin, decode_key_pin, decode_pin, existing, get,
}
use tith.Store.KeyPin.Layout.{IsStorablePin}
use tith.Store.KeyPin.Codec.{decode_key_pin-IsStorablePin, decode-encode_key_pin}

pub decoded-IsStorablePin :
    (stored : Option (List ℕ)) (pin : Option KeyPin)
    → ((value : List ℕ) → stored ≡ some value → All IsByte value)
    → decode_pin stored ≡ ok pin
    → IsOptional IsStorablePin pin
unfolding decode_pin
decoded-IsStorablePin none pin bytes h = rw (← ok-injective h) tt
decoded-IsStorablePin (some value) pin bytes h =
    let step = >>=-eq-ok (decode_key_pin value) _ h in
    rw (← ok-injective step.2) (decode_key_pin-IsStorablePin value step.0 (bytes value refl) step.1)

pub canonical-text :
    (self : Address) (address : Text)
    → canonical_non_anonymous self ≡ ok address
    → address_text self ≡ address
unfolding canonical_non_anonymous
canonical-text self address h = elim (Bool-cases (is_anonymous self)) [
  | inl e ↦ cc (rw e at h)
  | inr e ↦ ok-injective (rw e at h)
]

-- Every value of the table is a list of bytes.
module _ {T : Type 0} ⦃tables : Tables T⦄ where
  abbrev pub IsSound : T → Type 0
  IsSound pins =
      (address : Text) (value : List ℕ) → tables.get address pins ≡ some value → All IsByte value

  get-insert_other :
      (key other value : List ℕ) (table : T)
      → other ≢ key
      → tables.get other (tables.insert key value table) ≡ tables.get other table
  get-insert_other key other value table differ =
      tables.get-iter other _
      ∙ ap (find other) (tables.iter-insert key value table)
      ∙ find-put key value (tables.iter table) other
      ∙ elim (Bool-cases (key =? other)) [
        | inl e ↦ absurd (differ (sym ((list_beq_iff key other).0 e)))
        | inr e ↦ rw e (sym (tables.get-iter other table))
      ]

  pub existing-insert :
      (address : Text) (pin : KeyPin) (pins : T)
      → IsStorablePin pin
      → existing address (tables.insert address (encode_key_pin pin) pins) ≡ ok (some pin)
  unfolding existing decode_pin
  existing-insert address pin pins h =
      rw (get-insert address (encode_key_pin pin) pins, (decode-encode_key_pin pin h).1)

  pub get-other :
      (self other : Address) (address : Text) (value : List ℕ) (pins : T)
      → canonical_non_anonymous self ≡ ok address
      → address_text other ≢ address_text self
      → get other (tables.insert address value pins) ≡ get other pins
  unfolding get existing canonical_non_anonymous
  get-other self other address value pins named differ =
      let text : address_text self ≡ address = canonical-text self address named in
      elim (Bool-cases (is_anonymous other)) [
        | inl e ↦ rw e
        | inr e ↦
            rw (e, get-insert_other address (address_text other) value pins (rw (← text) differ))
      ]
