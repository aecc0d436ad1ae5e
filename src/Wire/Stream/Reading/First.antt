-- ===== src/Wire/Stream/Reading/First.antt =====
-- crates/tith-wire/src/tlv.rs: the first TLV that is read of a stream, as a function of the bytes
-- that it delivers.
use tith.Base.{
  ℕ, suc, ◌≤◌, ◌≡◌, refl, arith, leb, ltb, ◌==◌, if◌then◌else◌, true, false, Bool-cases, List, [],
  length, take, drop, Option, none, some, Result, ok, err, ◌⊎◌, inl, inr,
}
use tith.Wire.Integer.{max_u64_bytes}
use tith.Wire.TypeCode.{
  unexpected_eof, FramingError, io, invalid_type, length_overflow, panic, new, accept,
}
use tith.Wire.Tlv.{OwnedTlv, usize_max, checked_capacity, platform_capacity}
use tith.Wire.Stream.{
  Read, TlvReader, new_reader, with_length, with_accepted, with_type, owned, optional_value,
  read_integer, read_next, with_capacity, read_owned, owned_if_some, read_first,
}
use tith.Wire.Stream.Integer.{scan}
use tith.Wire.Stream.Reading.{Delivers, Holds, integer_loop-Scanned}
use tith.Wire.Stream.Reading.Values.{at, Ended, read_to_end-Ended}

abbrev pub Outcome : Type 0
Outcome = Result FramingError (Option (OwnedTlv × List ℕ))

-- The value, once the type and the length are known: with what is left behind it.
unfoldable pub valued : ℕ → ℕ → List ℕ → Outcome
valued type_code len input =
    if ltb usize_max len
    then err length_overflow
    else if leb len (length input)
    then ok (some (record { type_code = type_code; value = take len input }, drop len input))
    else err (io unexpected_eof)

unfoldable pub sized : ℕ → Result FramingError (Option ℕ) × List ℕ → Outcome
sized type_code (err e, input) = err e
sized type_code (ok none, input) = err panic
sized type_code (ok (some len), input) = valued type_code len input

unfoldable pub typed : Result FramingError (Option ℕ) × List ℕ → Outcome
typed (err e, input) = err e
typed (ok none, input) = ok none
typed (ok (some type_code), input) =
    if type_code == 0 then err invalid_type else sized type_code (scan max_u64_bytes [] false input)

-- The first TLV of the bytes to come.
unfoldable pub first_of : List ℕ → Outcome
first_of input = typed (scan max_u64_bytes [] true input)

module _ {S : Type 0} (read : Read S) (patience : ℕ) (buffer : List ℕ → ℕ) (d : Delivers read) where
  -- The same result, and a reader that goes on behind the TLV.
  abbrev pub Follows : Outcome → Result FramingError (Option OwnedTlv) × TlvReader S → Type 0
  Follows (err e) out = out.0 ≡ err e
  Follows (ok none) out = out.0 ≡ ok none
  Follows (ok (some (tlv, input))) out =
      (s' : S) × (out ≡ (ok (some tlv), new_reader s')) × Holds read patience buffer d s' input

  module _ (offers : (value : List ℕ) → 1 ≤ buffer value) where
    value_read :
        {type_code : ℕ} {value input : List ℕ} {out : Result FramingError (List ℕ) × TlvReader S}
        → (s' : S) × (out ≡ (ok value, new_reader s')) × Holds read patience buffer d s' input
        → Follows
            (ok (some (record { type_code = type_code; value = value }, input)))
            (optional_value (owned type_code out))
    unfolding optional_value owned
    value_read (s', same, holds) = (s', rw same, holds)

    cut_off :
        (type_code : ℕ) (out : Result FramingError (List ℕ) × TlvReader S) {e : FramingError}
        → out.0 ≡ err e
        → (optional_value (owned type_code out)).0 ≡ err e
    unfolding optional_value owned
    cut_off type_code (ok value, self) h = cc
    cut_off type_code (err e, self) h = cc

    capacity_big :
        (len : ℕ) → ltb usize_max len ≡ true → platform_capacity len ≡ err length_overflow
    unfolding platform_capacity checked_capacity
    capacity_big len big = rw big

    capacity_small : (len : ℕ) → ltb usize_max len ≡ false → platform_capacity len ≡ ok len
    unfolding platform_capacity checked_capacity
    capacity_small len small = rw small

    valued-Follows :
        (type_code len : ℕ) (input : List ℕ) (s : S)
        → Holds read patience buffer d s input
        → Follows (valued type_code len input) (
            owned_if_some read patience buffer (
              ok (some (record { type_code = type_code; len = len })),
              at read patience buffer d s len new,
            ))
    unfolding valued owned_if_some read_owned with_capacity optional_value
    valued-Follows type_code len input s h = elim (Bool-cases (ltb usize_max len)) [
      | inl big ↦ rw (big, capacity_big len big) refl
      | inr small ↦
          rw (small, capacity_small len small)
            (value_or_end _ (Bool-cases (leb len (length input))) (
              read_to_end-Ended read patience buffer d offers (suc len) new s input [] len
                (omega arith) h))
    ]
      where
        value_or_end :
            (out : Result FramingError (List ℕ) × TlvReader S)
            → (leb len (length input) ≡ true) ⊎ (leb len (length input) ≡ false)
            → Ended read patience buffer d (leb len (length input)) new [] len input out
            → Follows
                (if leb len (length input)
                  then ok (
                      some
                        (record { type_code = type_code; value = take len input }, drop len input))
                  else err (io unexpected_eof))
                (optional_value (owned type_code out))
        value_or_end out (inl whole) e = rw whole (value_read (rw whole at e))
        value_or_end out (inr cut) e = rw cut (cut_off type_code _ (rw cut at e))

    sized-Follows :
        (type_code : ℕ) (self : TlvReader S) (result : Result FramingError (Option ℕ))
        (input : List ℕ) (s : S)
        → self.type_state ≡ new
        → Holds read patience buffer d s input
        → Follows
            (sized type_code (result, input))
            (owned_if_some read patience buffer (with_length type_code self (result, s)))
    unfolding sized with_length
    sized-Follows type_code self (err e) input s fresh h = unfold owned_if_some in refl
    sized-Follows type_code self (ok none) input s fresh h = unfold owned_if_some in refl
    sized-Follows type_code self (ok (some len)) input s fresh h =
        rw fresh (valued-Follows type_code len input s h)

    typed-Follows :
        (result : Result FramingError (Option ℕ)) (input : List ℕ) (self : TlvReader S) (s : S)
        → self.type_state ≡ new
        → Holds read patience buffer d s input
        → Follows (typed (result, input)) (
            owned_if_some read patience buffer
              (with_type (read_integer read patience buffer false) self (result, s)))
    unfolding typed with_type with_accepted accept read_integer
    typed-Follows (err e) input self s fresh h = unfold owned_if_some in refl
    typed-Follows (ok none) input self s fresh h = unfold owned_if_some in refl
    typed-Follows (ok (some type_code)) input self s fresh h = elim (Bool-cases (type_code == 0)) [
      | inl z ↦ rw (fresh, z) (unfold owned_if_some in refl)
      | inr defined ↦
          let (s', same, h') =
            integer_loop-Scanned read patience buffer d max_u64_bytes [] false s input h in
          rw (fresh, defined, same)
            (sized-Follows type_code
              (record { inner = s; remaining = self.remaining; type_state = new }) _ _ s' refl h')
    ]

    -- Reading depends on the bytes to come only.
    pub read_first-Follows :
        (s : S) (input : List ℕ)
        → Holds read patience buffer d s input
        → Follows (first_of input) (read_first read patience buffer (new_reader s))
    unfolding first_of read_first read_next read_integer
    read_first-Follows s input h =
        let (s', same, h') =
          integer_loop-Scanned read patience buffer d max_u64_bytes [] true s input h in
        rw same (typed-Follows _ _ (new_reader s) s' refl h')
