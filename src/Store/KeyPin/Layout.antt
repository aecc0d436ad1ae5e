-- ===== src/Store/KeyPin/Layout.antt =====
-- crates/tith-store/src/key_pin.rs: where the parts of a stored pin stand in its 108 bytes.
use tith.Base.{
  ℕ, ◌+◌, ◌≡◌, refl, sym, ap, ◌∙◌, subst, arith, ltb, if◌then◌else◌, false, List, [], ◌∷◌, ◌++◌,
  length, take, drop, take_append, length-append, get_or, append-nil, Option, none, some, ok,
}
use native.Mathlib.Nat.{zero-add, suc-add}
use tith.Base.Options.{is_some}
use tith.Wire.Integer.{IsU64}
use tith.Wire.Address.{PublicKey}
use tith.Store.Bytes.{to_be}
use tith.Store.Bytes.Reading.{IsOptional, length-to_be, from-to_be}
use tith.Store.KeyPin.{KeyPin, evidence_of, key_at, decode_key_pin}

abbrev pub IsKey : PublicKey → Type 0
IsKey key = length key ≡ 32

-- What a pin needs to be stored: keys of 32 bytes and a time of 64 bits.
pub record IsStorablePin (pin : KeyPin) : Type 0 where
  pub current : IsKey pin.current
  pub anchor : IsOptional IsKey pin.anchor
  pub predecessor : IsOptional IsKey pin.predecessor
  pub observed : IsU64 pin.observed

take-front : (bytes rest : List ℕ) → length bytes ≡ 32 → take 32 (bytes ++ rest) ≡ bytes
take-front bytes rest e = rw (← e) (take_append bytes rest)

drop-append_add :
    (bytes rest : List ℕ) (k : ℕ) → drop (length bytes + k) (bytes ++ rest) ≡ drop k rest
drop-append_add [] rest k = rw zero-add
drop-append_add (x ∷ bytes) rest k = rw (suc-add (length bytes) k) (drop-append_add bytes rest k)

drop-past :
    (bytes rest : List ℕ) (k : ℕ) → length bytes ≡ 32 → drop (32 + k) (bytes ++ rest) ≡ drop k rest
drop-past bytes rest k e = rw (← e) (drop-append_add bytes rest k)

get_or-append_add :
    (bytes rest : List ℕ) (k : ℕ) → get_or (bytes ++ rest) (length bytes + k) 0 ≡ get_or rest k 0
get_or-append_add [] rest k = rw zero-add
get_or-append_add (x ∷ bytes) rest k =
    rw (suc-add (length bytes) k) (get_or-append_add bytes rest k)

get_or-past :
    (bytes rest : List ℕ) (k : ℕ)
    → length bytes ≡ 32
    → get_or (bytes ++ rest) (32 + k) 0 ≡ get_or rest k 0
get_or-past bytes rest k e = rw (← e) (get_or-append_add bytes rest k)

abbrev pub flag : Option PublicKey → ℕ
flag key = if is_some key then 1 else 0

abbrev pub time : KeyPin → List ℕ
time pin = to_be 8 pin.observed

-- The stored form of a pin: version, evidence, the current key, the two other keys behind their
-- flags, and the time. A key whose flag is 0 has any 32 bytes in its place.
abbrev pub stored : KeyPin → ℕ → PublicKey → PublicKey → List ℕ
stored pin code anchor_key predecessor_key =
    1
    ∷ code
    ∷ (pin.current
        ++ (flag pin.anchor ∷ anchor_key ++ (flag pin.predecessor ∷ predecessor_key ++ (time pin))))

key_at-stored :
    (at : ℕ) (value : List ℕ) (key : Option PublicKey)
    → get_or value at 0 ≡ flag key
    → IsOptional (λ k. take 32 (drop (at + 1) value) ≡ k) key
    → key_at at value ≡ key
unfolding key_at
key_at-stored at value none e f = rw e
key_at-stored at value (some key) e f = rw (e, f)

flag-small : (key : Option PublicKey) → ltb 1 (flag key) ≡ false
flag-small none = refl
flag-small (some key) = refl

optional_step :
    (bytes slice : PublicKey) (key : Option PublicKey)
    → slice ≡ bytes
    → IsOptional (λ k. bytes ≡ k) key
    → IsOptional (λ k. slice ≡ k) key
optional_step bytes slice none e h = tt
optional_step bytes slice (some key) e h = e ∙ h

-- The parts of the stored form.
module _ (pin : KeyPin) (code : ℕ) (anchor_key predecessor_key : PublicKey)
    (current : IsKey pin.current) (anchor_size : IsKey anchor_key)
    (predecessor_size : IsKey predecessor_key) where
  pub length-stored : length (stored pin code anchor_key predecessor_key) ≡ 108
  length-stored = omega (
    arith,
    length-append {0} pin.current
        (flag pin.anchor ∷ anchor_key ++ (flag pin.predecessor ∷ predecessor_key ++ (time pin))),
    length-append {0} anchor_key (flag pin.predecessor ∷ predecessor_key ++ (time pin)),
    length-append {0} predecessor_key (time pin),
    anchor_size,
    predecessor_size,
    current,
    length-to_be 8 pin.observed,
  )

  current-stored : take 32 (drop 2 (stored pin code anchor_key predecessor_key)) ≡ pin.current
  current-stored = take-front pin.current _ current

  anchor_flag : get_or (stored pin code anchor_key predecessor_key) 34 0 ≡ flag pin.anchor
  anchor_flag = get_or-past pin.current _ 0 current

  anchor_bytes : take 32 (drop 35 (stored pin code anchor_key predecessor_key)) ≡ anchor_key
  anchor_bytes =
      ap (take 32) (drop-past pin.current _ 1 current) ∙ take-front anchor_key _ anchor_size

  predecessor_flag : get_or (stored pin code anchor_key predecessor_key) 67 0 ≡ flag pin.predecessor
  predecessor_flag = get_or-past pin.current _ 33 current ∙ get_or-past anchor_key _ 0 anchor_size

  predecessor_bytes :
      take 32 (drop 68 (stored pin code anchor_key predecessor_key)) ≡ predecessor_key
  predecessor_bytes =
      ap (take 32) (drop-past pin.current _ 34 current ∙ drop-past anchor_key _ 1 anchor_size)
      ∙ take-front predecessor_key _ predecessor_size

  time_bytes : take 8 (drop 100 (stored pin code anchor_key predecessor_key)) ≡ time pin
  time_bytes =
      ap (take 8) (
        drop-past pin.current _ 66 current
        ∙ drop-past anchor_key _ 33 anchor_size
        ∙ drop-past predecessor_key _ 0 predecessor_size
        ∙ sym (append-nil (time pin)))
      ∙ subst (λ n. take n (time pin ++ []) ≡ time pin) (length-to_be 8 pin.observed)
          (take_append (time pin) [])

  -- The stored form is read back, whatever stands in the place of a key that there is not.
  pub decode_key_pin-stored :
      IsOptional (λ k. anchor_key ≡ k) pin.anchor
      → IsOptional (λ k. predecessor_key ≡ k) pin.predecessor
      → IsU64 pin.observed
      → evidence_of code ≡ ok pin.evidence
      → decode_key_pin (stored pin code anchor_key predecessor_key) ≡ ok pin
  unfolding decode_key_pin
  decode_key_pin-stored anchored preceded small evidence =
      rw
        (
          length-stored,
          anchor_flag,
          predecessor_flag,
          flag-small pin.anchor,
          flag-small pin.predecessor,
          evidence,
          current-stored,
          key_at-stored 34 _ pin.anchor anchor_flag
              (optional_step anchor_key _ pin.anchor anchor_bytes anchored),
          key_at-stored 67 _ pin.predecessor predecessor_flag
              (optional_step predecessor_key _ pin.predecessor predecessor_bytes preceded),
          time_bytes,
          from-to_be 8 pin.observed (omega (arith, small)),
        )
        refl
