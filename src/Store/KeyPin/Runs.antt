-- ===== src/Store/KeyPin/Runs.antt =====
-- Key pins at concrete values.
use tith.Base.{
  ℕ, ◌≡◌, ◌↔◌, ◌≢◌, refl, ◌=?◌, nat_eq, list_eq, list_beq_iff, arith, false, pos, All, List, [],
  ◌∷◌, length, none, some, ok, err,
}
use tith.Wire.Address.{Address, PublicKey, is_anonymous}
use tith.Wire.Integer.{IsByte}
use tith.Store.Types.{invalid_payload}
use tith.Store.Bytes.{to_be}
use tith.Store.Table.{Entries, find, put, Tables}
use tith.Store.Events.{decimal, decimal_from}
use tith.Store.Inbound.Accept.{address_text, int_text}
use tith.Store.KeyPin.{
  KeyPin, no_key, authenticated_continuity_proof, established, unchanged, effective_key, put_key,
  evidence_code, existing, decode_pin, observe_unless, canonical_non_anonymous, resolve,
  encode_key_pin, decode_key_pin, get, resolve_address, first_pin, next_pin, observe_initial,
  advance,
}
use tith.Store.KeyPin.Codec.{decode-encode_key_pin}
use tith.Store.KeyPin.Form.{IsStoredForm, decode_key_pin_iff}
use tith.Store.KeyPin.Initial.{observe_initial-observe_initial}
use tith.Store.KeyPin.Continuity.{advance-resolve, advance-advance}

instance abbrev pin_tables : Tables (Entries (List ℕ))
pin_tables = record {
  get = find;
  insert = put;
  iter = λ table. table;
  get-iter = λ key table. refl;
  iter-insert = λ key value table. refl;
}

abbrev first_key : PublicKey
first_key = no_key

abbrev second_key : PublicKey
second_key =
    1 ∷ 0 ∷ 0 ∷ 0 ∷ 0 ∷ 0 ∷ 0 ∷ 0 ∷ 0 ∷ 0 ∷ 0 ∷ 0 ∷ 0 ∷ 0 ∷ 0 ∷ 0 ∷ 0 ∷ 0 ∷ 0 ∷ 0 ∷ 0 ∷ 0 ∷ 0 ∷ 0
    ∷ 0 ∷ 0 ∷ 0 ∷ 0 ∷ 0 ∷ 0 ∷ 0 ∷ 2 ∷ []

abbrev no_entries : Entries (List ℕ)
no_entries = []

abbrev node : Address
node = record { domain = b'f' ∷ []; zone = pos 1; net = pos 1; node = pos 2; point = 0 }

abbrev moved : KeyPin
moved = record {
  current = second_key;
  anchor = some first_key;
  predecessor = some first_key;
  observed = 700;
  evidence = authenticated_continuity_proof;
}

decode-encode_key_pin_example :
    (length (encode_key_pin moved) ≡ 108) × (decode_key_pin (encode_key_pin moved) ≡ ok moved)
decode-encode_key_pin_example = decode-encode_key_pin moved (omega arith)

moved_bytes : All IsByte (encode_key_pin moved)
unfolding encode_key_pin put_key evidence_code to_be
moved_bytes = omega arith

decode_key_pin_iff_example :
    (decode_key_pin (encode_key_pin moved) ≡ ok moved) ↔ IsStoredForm (encode_key_pin moved) moved
decode_key_pin_iff_example = decode_key_pin_iff (encode_key_pin moved) moved moved_bytes

abbrev moved_pins : Entries (List ℕ)
moved_pins = put (address_text node) (encode_key_pin moved) []

run_advance : advance node first_key second_key (some first_key) 700 [] ≡ ok (moved, moved_pins)
unfolding advance existing decode_pin canonical_non_anonymous is_anonymous resolve next_pin
run_advance = refl

abbrev neighbour : Address
neighbour = record node { node = pos 3 }

no_pins : (address value : List ℕ) → find address [] ≡ some value → All IsByte value
no_pins address value h = cc

other_text : (address_text neighbour =? address_text node) ≡ false
unfolding address_text int_text decimal decimal_from
other_text = refl

apart : address_text neighbour ≢ address_text node
apart h =
    let same = (list_beq_iff (address_text neighbour) (address_text node)).1 h in cc other_text

advance-resolve_example :
    (resolve_address node (some first_key) no_entries ≡ ok (some first_key))
    × (resolve_address node (some first_key) moved_pins ≡ ok (some second_key))
    × (get neighbour moved_pins ≡ get neighbour no_entries)
advance-resolve_example =
    advance-resolve node first_key second_key (some first_key) 700 [] moved_pins moved no_pins refl
      refl refl (omega arith) run_advance neighbour apart

advance-advance_example :
    advance node first_key first_key (some first_key) 900 moved_pins ≡ err invalid_payload
advance-advance_example =
    advance-advance node first_key second_key (some first_key) 700 [] moved_pins moved no_pins refl
      refl refl (omega arith) run_advance first_key 900 (λ h. cc)

abbrev seen_pins : Entries (List ℕ)
seen_pins = put (address_text node) (encode_key_pin (first_pin first_key 7)) []

run_observe :
    observe_initial node first_key none 7 [] ≡ ok (established (first_pin first_key 7), seen_pins)
unfolding observe_initial observe_unless existing decode_pin canonical_non_anonymous is_anonymous
    resolve
run_observe = refl

observe_initial-observe_initial_example :
    observe_initial node second_key none 8 seen_pins
    ≡ ok (unchanged (effective_key (established (first_pin first_key 7))), seen_pins)
observe_initial-observe_initial_example =
    observe_initial-observe_initial node first_key second_key none 7 8 [] seen_pins
      (established (first_pin first_key 7)) refl (omega arith) run_observe
