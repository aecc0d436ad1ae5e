-- ===== src/Store/KeyPin.antt =====
-- crates/tith-store/src/key_pin.rs: the keys that an address is known by. A pin is what has been
-- observed of an address; an anchor is the key that a nodelist publishes for it.
pub mod Layout
pub mod Codec
pub mod Stored
pub mod Slices
pub mod Form
pub mod Initial
pub mod Continuity
mod Runs
use tith.Base.{
  ℕ, ◌+◌, ◌==◌, ltb, not, ◌||◌, ◌=?◌, nat_eq, list_eq, option_eq, if◌then◌else◌, List, [], ◌∷◌,
  ◌++◌, length, take, drop, get_or, Option, none, some, Result, ok, err, ensure, ◌>>=◌, ◌>>◌,
}
use tith.Base.Options.{is_some, unwrap_or, or_else}
use tith.Wire.Address.{Address, PublicKey, is_anonymous}
use tith.Store.Types.{Text, StoreError, corrupt_record, invalid_payload}
use tith.Store.Bytes.{to_be, from_be}
use tith.Store.Table.{Tables}
use tith.Store.Inbound.Accept.{address_text}

pub data KeyPinEvidence : Type 0 where
  authorized_initial_observation authenticated_continuity_proof : KeyPinEvidence

pub record KeyPin : Type 0 where
  pub current : PublicKey
  pub anchor : Option PublicKey
  pub predecessor : Option PublicKey
  pub observed : ℕ
  pub evidence : KeyPinEvidence

pub data InitialObservation : Type 0 where
  established : KeyPin → InitialObservation
  unchanged : PublicKey → InitialObservation

unfoldable pub effective_key : InitialObservation → PublicKey
effective_key (established pin) = pin.current
effective_key (unchanged key) = key

unfoldable pub canonical_non_anonymous : Address → Result StoreError Text
canonical_non_anonymous address =
    if is_anonymous address then err invalid_payload else ok (address_text address)

unfoldable pub resolve : Option KeyPin → Option PublicKey → Option PublicKey
resolve (some pin) (some anchor) =
    if pin.anchor =? some anchor then some pin.current else some anchor
resolve none (some anchor) = some anchor
resolve (some pin) none = some pin.current
resolve none none = none

abbrev pub no_key : PublicKey
no_key =
    0 ∷ 0 ∷ 0 ∷ 0 ∷ 0 ∷ 0 ∷ 0 ∷ 0 ∷ 0 ∷ 0 ∷ 0 ∷ 0 ∷ 0 ∷ 0 ∷ 0 ∷ 0 ∷ 0 ∷ 0 ∷ 0 ∷ 0 ∷ 0 ∷ 0 ∷ 0 ∷ 0
    ∷ 0 ∷ 0 ∷ 0 ∷ 0 ∷ 0 ∷ 0 ∷ 0 ∷ 0 ∷ []

unfoldable pub evidence_code : KeyPinEvidence → ℕ
evidence_code authorized_initial_observation = 0
evidence_code authenticated_continuity_proof = 1

unfoldable pub put_key : Option PublicKey → List ℕ
put_key key = (if is_some key then 1 else 0) ∷ unwrap_or no_key key

unfoldable pub encode_key_pin : KeyPin → List ℕ
encode_key_pin pin =
    1
    ∷ evidence_code pin.evidence
    ∷ (pin.current ++ (put_key pin.anchor ++ (put_key pin.predecessor ++ to_be 8 pin.observed)))

unfoldable pub evidence_of : ℕ → Result StoreError KeyPinEvidence
evidence_of code =
    if code == 0 || code == 2
    then ok authorized_initial_observation
    else if code == 1
    then ok authenticated_continuity_proof
    else err corrupt_record

-- `(value[at] == 1).then(…)`, the key in the 32 bytes behind its flag.
unfoldable pub key_at : ℕ → List ℕ → Option PublicKey
key_at at value = if get_or value at 0 == 1 then some (take 32 (drop (at + 1) value)) else none

unfoldable pub decode_key_pin : List ℕ → Result StoreError KeyPin
decode_key_pin value = do
  ensure
      (not (
        not (length value == 108)
        || not (get_or value 0 0 == 1)
        || ltb 1 (get_or value 34 0)
        || ltb 1 (get_or value 67 0)))
      corrupt_record
  evidence ← evidence_of (get_or value 1 0)
  ok (record {
    current = take 32 (drop 2 value);
    anchor = key_at 34 value;
    predecessor = key_at 67 value;
    observed = from_be 0 (take 8 (drop 100 value));
    evidence = evidence;
  })

unfoldable pub decode_pin : Option (List ℕ) → Result StoreError (Option KeyPin)
decode_pin none = ok none
decode_pin (some value) = decode_key_pin value >>= λ pin. ok (some pin)

unfoldable pub first_pin : PublicKey → ℕ → KeyPin
first_pin key observed = record {
  current = key;
  anchor = none;
  predecessor = none;
  observed = observed;
  evidence = authorized_initial_observation;
}

unfoldable pub anchor_of : Option KeyPin → Option PublicKey
anchor_of none = none
anchor_of (some pin) = pin.anchor

unfoldable pub next_pin : PublicKey → PublicKey → Option PublicKey → ℕ → Option KeyPin → KeyPin
next_pin predecessor current authoritative_anchor observed pin = record {
  current = current;
  anchor = or_else authoritative_anchor (anchor_of pin);
  predecessor = some predecessor;
  observed = observed;
  evidence = authenticated_continuity_proof;
}

module _ {T : Type 0} ⦃tables : Tables T⦄ where
  -- `KeyPinStore::get`, once the address is text.
  unfoldable pub existing : Text → T → Result StoreError (Option KeyPin)
  unfolding decode_pin
  existing address pins = decode_pin (tables.get address pins)

  unfoldable pub get : Address → T → Result StoreError (Option KeyPin)
  get self pins = canonical_non_anonymous self >>= λ address. existing address pins

  -- `KeyPinStore::resolve`.
  unfoldable pub resolve_address :
      Address → Option PublicKey → T → Result StoreError (Option PublicKey)
  resolve_address address authoritative_anchor pins =
      get address pins >>= λ pin. ok (resolve pin authoritative_anchor)

  unfoldable pub observe_unless :
      Text → PublicKey → ℕ → T → Option PublicKey → InitialObservation × T
  observe_unless address key observed pins (some effective) = (unchanged effective, pins)
  observe_unless address key observed pins none =
      let pin = first_pin key observed in
      (established pin, tables.insert address (encode_key_pin pin) pins)

  unfoldable pub observe_initial :
      Address → PublicKey → Option PublicKey → ℕ → T → Result StoreError (InitialObservation × T)
  observe_initial self key authoritative_anchor observed pins =
      canonical_non_anonymous self >>= λ address. existing address pins >>= λ pin.
      ok (observe_unless address key observed pins (resolve pin authoritative_anchor))

  unfoldable pub advance :
      Address → PublicKey → PublicKey → Option PublicKey → ℕ → T → Result StoreError (KeyPin × T)
  advance self predecessor current authoritative_anchor observed pins =
      canonical_non_anonymous self >>= λ address. existing address pins >>= λ pin.
      ensure (resolve pin authoritative_anchor =? some predecessor) invalid_payload
      >> (let next = next_pin predecessor current authoritative_anchor observed pin in
          ok (next, tables.insert address (encode_key_pin next) pins))
