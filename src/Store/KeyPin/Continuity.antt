-- ===== src/Store/KeyPin/Continuity.antt =====
-- crates/tith-store/src/key_pin.rs: a new key is accepted from the effective one only.
use tith.Base.{
  ℕ, ◌≡◌, ◌≢◌, refl, sym, ap, ◌∙◌, true, false, Bool-cases, ◌=?◌, nat_eq, list_eq, option_eq,
  option_beq_iff, Option, none, some, ok, err, ok-injective, inl, inr, >>=-eq-ok, ensure-bind,
}
use tith.Base.Options.{or_else, some-injective}
use tith.Wire.Integer.{IsU64}
use tith.Wire.Address.{Address, PublicKey}
use tith.Store.Inbound.Accept.{address_text}
use tith.Store.Types.{Text, invalid_payload}
use tith.Store.Bytes.Reading.{IsOptional}
use tith.Store.Table.{Tables}
use tith.Store.KeyPin.{
  KeyPin, canonical_non_anonymous, resolve, encode_key_pin, existing, get, resolve_address,
  anchor_of, next_pin, advance,
}
use tith.Store.KeyPin.Layout.{IsKey, IsStorablePin}
use tith.Store.KeyPin.Stored.{IsSound, decoded-IsStorablePin, get-other, existing-insert}

same_key : (key : PublicKey) → (some key =? some key) ≡ true
same_key key = (option_beq_iff (some key) (some key)).1 refl

resolve-next_pin :
    (predecessor current : PublicKey) (anchor : Option PublicKey) (observed : ℕ)
    (old : Option KeyPin)
    → resolve (some (next_pin predecessor current anchor observed old)) anchor ≡ some current
unfolding resolve next_pin
resolve-next_pin predecessor current none observed old = refl
resolve-next_pin predecessor current (some key) observed old = rw (same_key key)

anchor_of-IsKey :
    (pin : Option KeyPin) → IsOptional IsStorablePin pin → IsOptional IsKey (anchor_of pin)
unfolding anchor_of
anchor_of-IsKey none h = tt
anchor_of-IsKey (some pin) h = h.anchor

or_else-IsKey :
    (key other : Option PublicKey)
    → IsOptional IsKey key
    → IsOptional IsKey other
    → IsOptional IsKey (or_else key other)
or_else-IsKey none other h k = k
or_else-IsKey (some key) other h k = h

module _ {T : Type 0} ⦃tables : Tables T⦄ where
  -- What a successful `advance` has found and done.
  record Advanced (self : Address) (predecessor current : PublicKey) (anchor : Option PublicKey)
      (observed : ℕ) (pins : T) (pin : KeyPin) (pins' : T) : Type 0 where
    address : Text
    old : Option KeyPin
    named : canonical_non_anonymous self ≡ ok address
    found : existing address pins ≡ ok old
    effective : resolve old anchor ≡ some predecessor
    next : pin ≡ next_pin predecessor current anchor observed old
    stored : pins' ≡ tables.insert address (encode_key_pin pin) pins

  advance-Advanced :
      (self : Address) (predecessor current : PublicKey) (anchor : Option PublicKey) (observed : ℕ)
      (pins pins' : T) (pin : KeyPin)
      → advance self predecessor current anchor observed pins ≡ ok (pin, pins')
      → Advanced self predecessor current anchor observed pins pin pins'
  unfolding advance
  advance-Advanced self predecessor current anchor observed pins pins' pin h =
      let named = >>=-eq-ok (canonical_non_anonymous self) _ h in
      let found = >>=-eq-ok (existing named.0 pins) _ named.2 in
      let checked =
        ensure-bind (resolve found.0 anchor =? some predecessor) invalid_payload _ found.2 in
      let done = ok-injective checked.1 in
      record {
        address = named.0;
        old = found.0;
        named = named.1;
        found = found.1;
        effective = (option_beq_iff (resolve found.0 anchor) (some predecessor)).0 checked.0;
        next = sym (ap (λ (x : KeyPin × T). x.0) done);
        stored =
            sym (ap (λ (x : KeyPin × T). x.1) done)
            ∙ ap (λ x. tables.insert named.0 (encode_key_pin x) pins)
                (ap (λ (x : KeyPin × T). x.0) done);
      }

  module _ (self : Address) (predecessor current : PublicKey) (anchor : Option PublicKey)
      (observed : ℕ) (pins pins' : T) (pin : KeyPin) (sound : IsSound pins) (key : IsKey current)
      (former : IsKey predecessor) (published : IsOptional IsKey anchor) (time : IsU64 observed)
      (h : advance self predecessor current anchor observed pins ≡ ok (pin, pins')) where
    next_pin-IsStorablePin :
        (old : Option KeyPin)
        → IsOptional IsStorablePin old
        → IsStorablePin (next_pin predecessor current anchor observed old)
    unfolding next_pin
    next_pin-IsStorablePin old storable = record {
      current = key;
      anchor = or_else-IsKey anchor (anchor_of old) published (anchor_of-IsKey old storable);
      predecessor = former;
      observed = time;
    }

    -- The pin that is there afterwards.
    record Pinned : Type 0 where
      address : Text
      old : Option KeyPin
      named : canonical_non_anonymous self ≡ ok address
      before : existing address pins ≡ ok old
      effective : resolve old anchor ≡ some predecessor
      after : existing address pins' ≡ ok (some (next_pin predecessor current anchor observed old))
      stored : pins' ≡ tables.insert address (encode_key_pin pin) pins

    pinned : Pinned
    unfolding existing
    pinned =
        let a = advance-Advanced self predecessor current anchor observed pins pins' pin h in
        let storable =
          next_pin-IsStorablePin a.old
            (decoded-IsStorablePin (tables.get a.address pins) a.old (sound a.address) a.found) in
        record {
          address = a.address;
          old = a.old;
          named = a.named;
          before = a.found;
          effective = a.effective;
          after = rw (a.stored, a.next) (existing-insert a.address _ pins storable);
          stored = a.stored;
        }

    -- Where advance succeeds on a table of bytes, with keys of 32 bytes and a time of 64 bits, the
    -- key that it was given as the predecessor was the effective key of the address under this
    -- anchor, the current one is so afterwards, and no other address is affected.
    pub advance-resolve :
        (other : Address)
        → address_text other ≢ address_text self
        → (resolve_address self anchor pins ≡ ok (some predecessor))
          × (resolve_address self anchor pins' ≡ ok (some current))
          × (get other pins' ≡ get other pins)
    unfolding resolve_address get
    advance-resolve other differ =
        let p = pinned in
        (
          rw (p.named, p.before, p.effective),
          rw (p.named, p.after, resolve-next_pin predecessor current anchor observed p.old),
          rw p.stored (get-other self other p.address _ pins p.named differ),
        )

    -- The former key is not accepted again: once advance has moved an address on from a key to
    -- another one, it refuses to advance from the former key, whatever key is to follow.
    pub advance-advance :
        (next : PublicKey) (later : ℕ)
        → predecessor ≢ current
        → advance self predecessor next anchor later pins' ≡ err invalid_payload
    advance-advance next later differ =
        let p = pinned in
        let stale : (some current =? some predecessor) ≡ false =
          elim (Bool-cases (some current =? some predecessor)) [
            | inl e ↦ absurd (
                differ
                  (sym (some-injective ((option_beq_iff (some current) (some predecessor)).0 e))))
            | inr e ↦ e
          ] in
        unfold advance in
        rw (p.named, p.after, resolve-next_pin predecessor current anchor observed p.old, stale)
