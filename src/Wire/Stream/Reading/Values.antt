-- ===== src/Wire/Stream/Reading/Values.antt =====
-- crates/tith-wire/src/tlv.rs: `read_to_end`, `read_owned` and `read_next` on a stream, as functions
-- of the bytes that it delivers.
use tith.Base.{
  ℕ, zero, suc, ◌-◌, ◌≤◌, ◌<◌, ◌≡◌, refl, sym, ◌∙◌, arith, leb, ◌==◌, ◌||◌, if◌then◌else◌, Bool,
  true, false, Bool-cases, List, [], ◌∷◌, ◌++◌, length, take, drop, length-append, append_assoc,
  append-nil, Result, ok, err, ◌⊎◌, inl, inr,
}
use tith.Wire.TypeCode.{unexpected_eof, FramingError, io, SequenceTypeState}
use tith.Wire.Stream.{Read, TlvReader, value_round, end_round, read_value, read_to_end}
use tith.Wire.Stream.Reading.{Delivers, Holds, read_inner-Got}

module _ {ℓ} {A : Type ℓ} where
  take-append_ge :
      (xs ys : List A) (n : ℕ) → length xs ≤ n → take n (xs ++ ys) ≡ xs ++ take (n - length xs) ys
  take-append_ge [] ys n h = ground arith
  take-append_ge (x ∷ xs) ys zero h = absurd (omega arith)
  take-append_ge (x ∷ xs) ys (suc n) h = ground (arith, take-append_ge xs ys n)

  drop-append_ge :
      (xs ys : List A) (n : ℕ) → length xs ≤ n → drop n (xs ++ ys) ≡ drop (n - length xs) ys
  drop-append_ge [] ys n h = ground arith
  drop-append_ge (x ∷ xs) ys zero h = absurd (omega arith)
  drop-append_ge (x ∷ xs) ys (suc n) h = ground (arith, drop-append_ge xs ys n)

leb-append :
    (xs ys : List ℕ) (n : ℕ)
    → length xs ≤ n
    → leb n (length (xs ++ ys)) ≡ leb (n - length xs) (length ys)
leb-append xs ys n h = ground (arith, length-append xs ys)

module _ {S : Type 0} (read : Read S) (patience : ℕ) (buffer : List ℕ → ℕ) (d : Delivers read) where
  abbrev pub at : S → ℕ → SequenceTypeState → TlvReader S
  at s remaining type_state = record { inner = s; remaining = remaining; type_state = type_state }

  -- What `read_to_end` comes to: the bytes of the value, or an error where the stream ends in it.
  abbrev pub Ended :
      Bool
      → SequenceTypeState
      → List ℕ
      → ℕ
      → List ℕ
      → Result FramingError (List ℕ) × TlvReader S
      → Type 0
  Ended true type_state value remaining input out =
      (s' : S) × (out ≡ (ok (value ++ take remaining input), at s' 0 type_state))
      × Holds read patience buffer d s' (drop remaining input)
  Ended false type_state value remaining input out = out.0 ≡ err (io unexpected_eof)

  -- After a first read, of bytes that belong to the value.
  after_round :
      (type_state : SequenceTypeState) (value bytes rest : List ℕ) (remaining : ℕ)
      (out : Result FramingError (List ℕ) × TlvReader S)
      → length bytes ≤ remaining
      → Ended
          (leb (remaining - length bytes) (length rest))
          type_state
          (value ++ bytes)
          (remaining - length bytes)
          rest
          out
      → Ended
          (leb remaining (length (bytes ++ rest)))
          type_state
          value
          remaining
          (bytes ++ rest)
          out
  after_round type_state value bytes rest remaining out h e =
      rw (leb-append bytes rest remaining h)
        (elim (Bool-cases (leb (remaining - length bytes) (length rest))) [
          | inl l ↦ rw l (found (rw l at e))
          | inr l ↦ rw l (rw l at e)
        ])
    where
      found :
          Ended true type_state (value ++ bytes) (remaining - length bytes) rest out
          → Ended true type_state value remaining (bytes ++ rest) out
      found (s', same, holds) = (
        s',
        rw (take-append_ge bytes rest remaining h)
            (rw (← append_assoc value bytes (take (remaining - length bytes) rest)) same),
        rw (drop-append_ge bytes rest remaining h) holds,
      )

  module _ (offers : (value : List ℕ) → 1 ≤ buffer value) where
    -- A read where some of the value is left: it brings bytes of the value, or the stream has ended.
    record Brought (remaining : ℕ) (type_state : SequenceTypeState) (s : S) (input : List ℕ)
        (len : ℕ) : Type 0 where
      bytes : List ℕ
      after : S
      same :
          read_value read patience buffer len (at s remaining type_state)
          ≡ value_round (at s remaining type_state) (ok bytes, after)
      split : input ≡ bytes ++ d.contents after
      fits : length bytes ≤ remaining
      progress : (1 ≤ length bytes) ⊎ (input ≡ [])
      patient : d.delays after < patience

    brought :
        (remaining : ℕ) (type_state : SequenceTypeState) (s : S) (input : List ℕ) (len : ℕ)
        → 1 ≤ len
        → 1 ≤ remaining
        → Holds read patience buffer d s input
        → Brought remaining type_state s input len
    unfolding read_value
    brought remaining type_state s input len hl hr h =
        let n = if leb remaining len then remaining else len in
        let wide : 1 ≤ n = ground arith in
        let narrow : n ≤ remaining = ground arith in
        let g = read_inner-Got read patience buffer d patience n s wide h.patient in
        let live : (remaining == 0 || len == 0) ≡ false = ground arith in
        record {
          bytes = g.bytes;
          after = g.after;
          same = rw (live, g.same);
          split = sym h.bytes ∙ g.split;
          fits = omega (arith, g.fits);
          progress = rw (← h.bytes) g.progress;
          patient = omega (arith, g.fewer, h.patient);
        }

    value_empty :
        (remaining : ℕ) (type_state : SequenceTypeState) (s : S) (input value : List ℕ)
        → Holds read patience buffer d s input
        → Ended (leb 0 (length input)) type_state value 0 input (ok value, at s 0 type_state)
    value_empty remaining type_state s input value h =
        let all : leb 0 (length input) ≡ true = ground arith in rw all (s, rw (append-nil value), h)

    ended :
        (fuel : ℕ) (type_state : SequenceTypeState) (s : S) (input value bytes : List ℕ)
        (remaining : ℕ) (after : S)
        → input ≡ bytes ++ d.contents after
        → length bytes ≤ remaining
        → (1 ≤ length bytes) ⊎ (input ≡ [])
        → d.delays after < patience
        → 1 ≤ remaining
        → (1 ≤ length bytes
            → (value' : List ℕ)
            → Ended
                (leb (remaining - length bytes) (length (d.contents after)))
                type_state
                value'
                (remaining - length bytes)
                (d.contents after)
                (read_to_end read patience buffer fuel value'
                  (at after (remaining - length bytes) type_state)))
        → Ended (leb remaining (length input)) type_state value remaining input (
            end_round
              (λ (value' : List ℕ) (self' : TlvReader S).
                read_to_end read patience buffer fuel value' self')
              value
              (value_round (at s remaining type_state) (ok bytes, after)))
    unfolding end_round value_round
    ended fuel type_state s input value [] remaining after split fits (inl p) pt hr ih =
        absurd (omega arith)
    ended fuel type_state s input value [] remaining after split fits (inr end) pt hr ih =
        let cut : leb remaining (length input) ≡ false = rw end (ground arith) in rw cut refl
    ended fuel type_state s input value (b ∷ bytes) remaining after split fits p pt hr ih =
        rw split (
          after_round type_state value (b ∷ bytes) (d.contents after) remaining _ fits
            (ih (omega arith) (value ++ (b ∷ bytes))))

    pub read_to_end-Ended :
        (fuel : ℕ) (type_state : SequenceTypeState) (s : S) (input value : List ℕ) (remaining : ℕ)
        → remaining < fuel
        → Holds read patience buffer d s input
        → Ended
            (leb remaining (length input))
            type_state
            value
            remaining
            input
            (read_to_end read patience buffer fuel value (at s remaining type_state))
    unfolding read_to_end
    read_to_end-Ended zero type_state s input value remaining enough h = absurd (omega arith)
    read_to_end-Ended (suc fuel) type_state s input value zero enough h =
        unfold read_value end_round in value_empty zero type_state s input value h
    read_to_end-Ended (suc fuel) type_state s input value (suc remaining) enough h =
        let b =
          brought (suc remaining) type_state s input (buffer value) (offers value) (omega arith)
            h in
        rw b.same (
          ended fuel type_state s input value b.bytes (suc remaining) b.after b.split b.fits
            b.progress b.patient (omega arith)
            (λ some_came value'.
              read_to_end-Ended fuel type_state b.after (d.contents b.after) value'
                (suc remaining - length b.bytes) (omega arith)
                (record { bytes = refl; patient = b.patient })))
