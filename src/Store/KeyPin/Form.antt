-- ===== src/Store/KeyPin/Form.antt =====
-- crates/tith-store/src/key_pin.rs: which bytes are read as which pin.
use tith.Base.{
  ℕ, zero, suc, ◌+◌, ◌≤◌, ◌<◌, ◌≡◌, ◌↔◌, refl, sym, ap, ◌∙◌, subst, arith, ◌==◌, ltb, ◌||◌, not,
  true, false, List, [], ◌∷◌, ◌++◌, length, take, drop, length-take, length-drop, ==_iff, All-drop,
  drop-length, append-nil, Bool, get_or, All, Bool-cases, ok, inl, inr, >>=-eq-ok, ok-injective,
  ensure-bind,
}
use tith.Wire.Integer.{IsByte}
use tith.Wire.Address.{PublicKey}
use tith.Store.Types.{corrupt_record}
use tith.Store.Bytes.{to_be, from_be}
use tith.Store.Bytes.Reading.{IsOptional}
use tith.Store.KeyPin.{
  KeyPinEvidence, authorized_initial_observation, authenticated_continuity_proof, KeyPin,
  evidence_of, key_at, decode_key_pin,
}
use tith.Store.KeyPin.Layout.{IsKey, IsStorablePin, flag, decode_key_pin-stored}
use tith.Store.KeyPin.Codec.{decode_key_pin-IsStorablePin}
use tith.Store.KeyPin.Slices.{drop-get_or, drop-slice, to_be-from_be}

-- The byte for the evidence: 2 is read as 0 is.
pub data IsEvidence : ℕ → KeyPinEvidence → Type 0 where
  initial : IsEvidence 0 authorized_initial_observation
  continuity : IsEvidence 1 authenticated_continuity_proof
  earlier_initial : IsEvidence 2 authorized_initial_observation

-- `value` is the pin's version 1, evidence, current key, the two other keys behind their flags,
-- and time. A key that the pin does not have is any 32 bytes behind the flag 0.
pub record IsStoredForm (value : List ℕ) (pin : KeyPin) : Type 0 where
  pub storable : IsStorablePin pin
  pub code : ℕ
  pub evidence : IsEvidence code pin.evidence
  pub anchor_key : PublicKey
  pub anchor_size : IsKey anchor_key
  pub anchor : IsOptional (λ key. anchor_key ≡ key) pin.anchor
  pub predecessor_key : PublicKey
  pub predecessor_size : IsKey predecessor_key
  pub predecessor : IsOptional (λ key. predecessor_key ≡ key) pin.predecessor
  pub bytes :
      value
      ≡ 1
        ∷ code
        ∷ (pin.current
            ++ (flag pin.anchor ∷ anchor_key
                ++ (flag pin.predecessor ∷ predecessor_key ++ to_be 8 pin.observed)))

evidence_of-IsEvidence :
    (code : ℕ) (evidence : KeyPinEvidence)
    → evidence_of code ≡ ok evidence
    → IsEvidence code evidence
unfolding evidence_of
evidence_of-IsEvidence zero evidence h = subst (IsEvidence 0) (ok-injective h) initial
evidence_of-IsEvidence (suc zero) evidence h = subst (IsEvidence 1) (ok-injective h) continuity
evidence_of-IsEvidence (suc (suc zero)) evidence h =
    subst (IsEvidence 2) (ok-injective h) earlier_initial
evidence_of-IsEvidence (suc (suc (suc code))) evidence h = absurd (ground arith)

IsEvidence-evidence_of :
    {code : ℕ} {evidence : KeyPinEvidence}
    → IsEvidence code evidence
    → evidence_of code ≡ ok evidence
unfolding evidence_of
IsEvidence-evidence_of initial = refl
IsEvidence-evidence_of continuity = refl
IsEvidence-evidence_of earlier_initial = refl

-- What the first test of the decoder lets pass.
tests_pass :
    (a b c d : Bool)
    → not (not a || not b || c || d) ≡ true
    → (a ≡ true) × (b ≡ true) × (c ≡ false) × (d ≡ false)
tests_pass a b c d h = ground arith

flag-key_at :
    (at : ℕ) (value : List ℕ)
    → ltb 1 (get_or value at 0) ≡ false
    → flag (key_at at value) ≡ get_or value at 0
unfolding key_at
flag-key_at at value h = ground arith

-- 108 bytes are the parts that the decoder reads.
module _ (value : List ℕ) (size : length value ≡ 108) where
  byte : (n : ℕ) → n < 108 → drop n value ≡ get_or value n 0 ∷ drop (suc n) value
  byte n h = drop-get_or n value (omega (arith, size))

  time_slice : drop 100 value ≡ take 8 (drop 100 value)
  time_slice =
      drop-slice 100 8 value
      ∙ ap (λ ys. take 8 (drop 100 value) ++ ys)
          (subst (λ n. drop n value ≡ []) size (drop-length value))
      ∙ append-nil (take 8 (drop 100 value))

  key_slice :
      (n : ℕ) (rest : List ℕ)
      → drop (n + 32) value ≡ rest
      → drop n value ≡ take 32 (drop n value) ++ rest
  key_slice n rest e = drop-slice n 32 value ∙ ap (λ ys. take 32 (drop n value) ++ ys) e

  slices :
      value
      ≡ get_or value 0 0
        ∷ get_or value 1 0
        ∷ (take 32 (drop 2 value)
            ++ (get_or value 34 0 ∷ take 32 (drop 35 value)
                ++ (get_or value 67 0 ∷ take 32 (drop 68 value) ++ take 8 (drop 100 value))))
  slices =
      let last = key_slice 68 _ time_slice in
      let predecessor = byte 67 (omega arith) ∙ ap (λ ys. get_or value 67 0 ∷ ys) last in
      let anchor =
        byte 34 (omega arith) ∙ ap (λ ys. get_or value 34 0 ∷ ys) (key_slice 35 _ predecessor) in
      byte 0 (omega arith)
      ∙ ap (λ ys. get_or value 0 0 ∷ ys)
          (byte 1 (omega arith) ∙ ap (λ ys. get_or value 1 0 ∷ ys) (key_slice 2 _ anchor))

  slice_size : (n : ℕ) → n + 32 ≤ 108 → IsKey (take 32 (drop n value))
  slice_size n h = length-take 32 (drop n value) (omega (arith, length-drop n value, size))

key_at-slice :
    (at : ℕ) (value : List ℕ)
    → IsOptional (λ k. take 32 (drop (at + 1) value) ≡ k) (key_at at value)
unfolding key_at
key_at-slice at value = elim (Bool-cases (get_or value at 0 == 1)) [
  | inl e ↦ rw e refl
  | inr e ↦ rw e tt
]

-- The pin that stands in the bytes.
abbrev pin_of : List ℕ → KeyPinEvidence → KeyPin
pin_of value evidence = record {
  current = take 32 (drop 2 value);
  anchor = key_at 34 value;
  predecessor = key_at 67 value;
  observed = from_be 0 (take 8 (drop 100 value));
  evidence = evidence;
}

pin_of-IsStoredForm :
    (value : List ℕ) (evidence : KeyPinEvidence)
    → All IsByte value
    → length value ≡ 108
    → get_or value 0 0 ≡ 1
    → ltb 1 (get_or value 34 0) ≡ false
    → ltb 1 (get_or value 67 0) ≡ false
    → IsEvidence (get_or value 1 0) evidence
    → IsStorablePin (pin_of value evidence)
    → IsStoredForm value (pin_of value evidence)
pin_of-IsStoredForm value evidence small size version f34 f67 code storable =
    let time_size : length (take 8 (drop 100 value)) ≡ 8 =
      length-take 8 (drop 100 value) (omega (arith, length-drop 100 value, size)) in
    let time_small : All IsByte (take 8 (drop 100 value)) =
      subst (All IsByte) (time_slice value size) (All-drop IsByte 100 value small) in
    record {
      storable = storable;
      code = get_or value 1 0;
      evidence = code;
      anchor_key = take 32 (drop 35 value);
      anchor_size = slice_size value size 35 (omega arith);
      anchor = key_at-slice 34 value;
      predecessor_key = take 32 (drop 68 value);
      predecessor_size = slice_size value size 68 (omega arith);
      predecessor = key_at-slice 67 value;
      bytes =
          slices value size
          ∙ rw (
            version,
            flag-key_at 34 value f34,
            flag-key_at 67 value f67,
            to_be-from_be 8 (take 8 (drop 100 value)) time_size time_small,
          );
    }

-- Of bytes, exactly the stored forms of a pin are read as that pin.
pub decode_key_pin_iff :
    (value : List ℕ) (pin : KeyPin)
    → All IsByte value
    → (decode_key_pin value ≡ ok pin) ↔ IsStoredForm value pin
unfolding decode_key_pin
decode_key_pin_iff value pin small = (forward, backward)
  where
    forward : decode_key_pin value ≡ ok pin → IsStoredForm value pin
    forward h =
        let first = ensure-bind _ corrupt_record _ h in
        let second = >>=-eq-ok (evidence_of (get_or value 1 0)) _ first.1 in
        let (sized, versioned, f34, f67) = tests_pass _ _ _ _ first.0 in
        let same : pin_of value second.0 ≡ pin = ok-injective second.2 in
        subst (IsStoredForm value) same (
          pin_of-IsStoredForm value second.0 small ((==_iff _ _).0 sized) ((==_iff _ _).0 versioned)
            f34 f67 (evidence_of-IsEvidence _ _ second.1)
            (subst IsStorablePin (sym same) (decode_key_pin-IsStorablePin value pin small h)))

    backward : IsStoredForm value pin → decode_key_pin value ≡ ok pin
    backward form =
        ap decode_key_pin form.bytes
        ∙ decode_key_pin-stored pin form.code form.anchor_key form.predecessor_key
            form.storable.current form.anchor_size form.predecessor_size form.anchor
            form.predecessor form.storable.observed (IsEvidence-evidence_of form.evidence)
