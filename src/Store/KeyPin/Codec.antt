-- ===== src/Store/KeyPin/Codec.antt =====
-- crates/tith-store/src/key_pin.rs: a stored pin is read back as it was written, in 108 bytes.
use tith.Base.{
  ℕ, zero, suc, ◌+◌, ◌*◌, ◌^◌, ◌≤◌, ◌<◌, ◌≡◌, refl, subst, arith, ◌==◌, ◌||◌, not, true, false,
  List, [], ◌∷◌, length, take, drop, length-take, length-drop, ==_iff, All-drop, Bool, get_or, All,
  Bool-cases, Option, none, some, ok, inl, inr, >>=-eq-ok, ok-injective, ensure-bind,
}
use native.Mathlib.Nat.{add-zero, add-suc, suc-add, pow-succ'}
use tith.Base.Options.{unwrap_or}
use tith.Wire.Integer.{IsByte}
use tith.Wire.Address.{PublicKey}
use tith.Store.Types.{corrupt_record}
use tith.Store.Bytes.{from_be}
use tith.Store.Bytes.Reading.{IsOptional}
use tith.Store.KeyPin.{
  KeyPinEvidence, authorized_initial_observation, authenticated_continuity_proof, KeyPin, put_key,
  no_key, evidence_code, evidence_of, key_at, encode_key_pin, decode_key_pin,
}
use tith.Store.KeyPin.Layout.{IsKey, IsStorablePin, length-stored, decode_key_pin-stored}

-- The bytes of a key or of its place.
abbrev stored_key : Option PublicKey → List ℕ
stored_key key = unwrap_or no_key key

length-stored_key : (key : Option PublicKey) → IsOptional IsKey key → length (stored_key key) ≡ 32
length-stored_key none h = refl
length-stored_key (some key) h = h

stored_key-some : (key : Option PublicKey) → IsOptional (λ k. stored_key key ≡ k) key
stored_key-some none = tt
stored_key-some (some key) = refl

evidence_of-code : (evidence : KeyPinEvidence) → evidence_of (evidence_code evidence) ≡ ok evidence
unfolding evidence_of evidence_code
evidence_of-code authorized_initial_observation = refl
evidence_of-code authenticated_continuity_proof = refl

-- A pin with keys of 32 bytes and a time of 64 bits is stored in 108 bytes, and read back.
pub decode-encode_key_pin :
    (pin : KeyPin)
    → IsStorablePin pin
    → (length (encode_key_pin pin) ≡ 108) × (decode_key_pin (encode_key_pin pin) ≡ ok pin)
unfolding encode_key_pin put_key
decode-encode_key_pin pin s =
    let anchor_size = length-stored_key pin.anchor s.anchor in
    let predecessor_size = length-stored_key pin.predecessor s.predecessor in
    let code = evidence_code pin.evidence in
    let anchor_key = stored_key pin.anchor in
    let predecessor_key = stored_key pin.predecessor in
    (
      length-stored pin code anchor_key predecessor_key s.current anchor_size predecessor_size,
      decode_key_pin-stored pin code anchor_key predecessor_key s.current anchor_size
          predecessor_size (stored_key-some pin.anchor) (stored_key-some pin.predecessor) s.observed
          (evidence_of-code pin.evidence),
    )

-- What is read has the sizes of what is written.
length-slice :
    (n at : ℕ) (value : List ℕ)
    → length value ≡ 108
    → n + at ≤ 108
    → length (take n (drop at value)) ≡ n
length-slice n at value size fits =
    length-take n (drop at value) (omega (arith, length-drop at value))

key_at-IsKey :
    (at : ℕ) (value : List ℕ)
    → length value ≡ 108
    → at + 33 ≤ 108
    → IsOptional IsKey (key_at at value)
unfolding key_at
key_at-IsKey at value size fits = elim (Bool-cases (get_or value at 0 == 1)) [
  | inl e ↦ rw e (length-slice 32 (at + 1) value size (omega arith))
  | inr e ↦ rw e tt
]

from_be-lt :
    (bytes : List ℕ) (v n : ℕ)
    → All IsByte bytes
    → v < 256 ^ n
    → from_be v bytes < 256 ^ (n + length bytes)
unfolding from_be
from_be-lt [] v n hb h = rw add-zero h
from_be-lt (b ∷ bytes) v n (hb, hbs) h =
    rw (add-suc n (length bytes), ← suc-add n (length bytes))
      (from_be-lt bytes (v * 256 + b) (suc n) hbs (omega (arith, pow-succ' 256 n)))

all_pass : (a b c d : Bool) → not (not a || b || c || d) ≡ true → a ≡ true
all_pass true b c d h = refl
all_pass false b c d h = cc

All-take : (n : ℕ) (xs : List ℕ) → All IsByte xs → All IsByte (take n xs)
All-take zero xs h = tt
All-take (suc n) [] h = tt
All-take (suc n) (x ∷ xs) (b, bs) = (b, All-take n xs bs)

-- A value of bytes that is read as a pin gives keys of 32 bytes and a time of 64 bits, so the pin
-- can be stored again.
pub decode_key_pin-IsStorablePin :
    (value : List ℕ) (pin : KeyPin)
    → All IsByte value
    → decode_key_pin value ≡ ok pin
    → IsStorablePin pin
unfolding decode_key_pin
decode_key_pin-IsStorablePin value pin hb h =
    let first = ensure-bind _ corrupt_record _ h in
    let second = >>=-eq-ok (evidence_of (get_or value 1 0)) _ first.1 in
    let size : length value ≡ 108 = (==_iff (length value) 108).0 (all_pass _ _ _ _ first.0) in
    let time = take 8 (drop 100 value) in
    let sized : length time ≡ 8 = length-slice 8 100 value size (omega arith) in
    let small : from_be 0 time < 256 ^ (0 + length time) =
      from_be-lt time 0 0 (All-take 8 (drop 100 value) (All-drop IsByte 100 value hb))
        (omega arith) in
    subst IsStorablePin (ok-injective second.2) (record {
      current = length-slice 32 2 value size (omega arith);
      anchor = key_at-IsKey 34 value size (omega arith);
      predecessor = key_at-IsKey 67 value size (omega arith);
      observed = subst (λ n. from_be 0 time < 256 ^ (0 + n)) sized small;
    })
