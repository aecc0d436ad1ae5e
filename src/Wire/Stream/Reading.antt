-- ===== src/Wire/Stream/Reading.antt =====
-- crates/tith-wire/src/tlv.rs: what `TlvReader` reads depends on the bytes that the stream delivers
-- and on nothing else: neither on how many come at a time nor on the interruptions.
pub mod Values
pub mod First
use tith.Base.{
  ℕ, zero, suc, ◌+◌, ◌-◌, ◌≤◌, ◌<◌, ◌≡◌, refl, sym, ap, ◌∙◌, arith, leb, ◌==◌, ◌||◌, if◌then◌else◌,
  Bool, true, false, Bool-cases, List, [], ◌∷◌, ◌++◌, length, take, drop, length-append,
  append_assoc, append-nil, Option, none, some, Result, ok, err, ◌⊎◌, inl, inr,
}
use tith.Wire.Integer.{max_u64_bytes}
use tith.Wire.TypeCode.{
  IoError, interrupted, unexpected_eof, FramingError, io, invalid_type, panic, new, accept,
}
use tith.Wire.Tlv.{OwnedTlv}
use tith.Wire.Stream.{
  Read, TlvReader, new_reader, last_byte, decode_used, settle, integer_round, read_inner,
  integer_loop, read_integer, read_next, read_value, read_to_end, read_owned, read_first,
}
use tith.Wire.Stream.Integer.{scan}

-- What one call of `read` did, in a state with these bytes to come: it was interrupted, or it took
-- bytes that fit into the buffer, and none only at the end.
pub data Came {S : Type 0} (contents : S → List ℕ) (delays : S → ℕ) (n : ℕ) (s : S)
    : Result IoError (List ℕ) × S → Type 0 where
  delayed :
      (s' : S)
      → contents s' ≡ contents s
      → delays s' < delays s
      → Came contents delays n s (err interrupted, s')
  arrived :
      (bytes : List ℕ) (s' : S)
      → contents s ≡ bytes ++ contents s'
      → length bytes ≤ n
      → (1 ≤ length bytes) ⊎ (contents s ≡ [])
      → delays s' ≤ delays s
      → Came contents delays n s (ok bytes, s')

-- A stream that ends without an error, and is interrupted finitely often.
pub record Delivers {S : Type 0} (read : Read S) : Type 0 where
  pub contents : S → List ℕ
  pub delays : S → ℕ
  pub came : (n : ℕ) (s : S) → 1 ≤ n → Came contents delays n s (read n s)

module _ {S : Type 0} (read : Read S) (patience : ℕ) (buffer : List ℕ → ℕ) (d : Delivers read) where
  -- A state in which the stream has these bytes left, and is interrupted less often than is borne.
  pub record Holds (s : S) (input : List ℕ) : Type 0 where
    pub bytes : d.contents s ≡ input
    pub patient : d.delays s < patience

  pub record Got (n : ℕ) (s : S) (out : Result FramingError (List ℕ) × S) : Type 0 where
    pub bytes : List ℕ
    pub after : S
    pub same : out ≡ (ok bytes, after)
    pub split : d.contents s ≡ bytes ++ d.contents after
    pub fits : length bytes ≤ n
    pub progress : (1 ≤ length bytes) ⊎ (d.contents s ≡ [])
    pub fewer : d.delays after ≤ d.delays s

  settled :
      (fuel n : ℕ) (s : S)
      → ((s' : S) → d.delays s' < d.delays s → Got n s' (read_inner read patience buffer fuel n s'))
      → (r : Result IoError (List ℕ) × S) → Came d.contents d.delays n s r
      → Got n s (settle (λ (again : S). read_inner read patience buffer fuel n again) r)
  unfolding settle
  settled fuel n s again r (delayed s' same less) =
      let g = again s' less in
      record {
        bytes = g.bytes;
        after = g.after;
        same = g.same;
        split = sym same ∙ g.split;
        fits = g.fits;
        progress = rw (← same) g.progress;
        fewer = omega (arith, g.fewer);
      }
  settled fuel n s again r (arrived bytes s' split fits progress fewer) = record {
    bytes = bytes;
    after = s';
    same = refl;
    split = split;
    fits = fits;
    progress = progress;
    fewer = fewer;
  }

  pub read_inner-Got :
      (fuel n : ℕ) (s : S)
      → 1 ≤ n
      → d.delays s < fuel
      → Got n s (read_inner read patience buffer fuel n s)
  unfolding read_inner
  read_inner-Got zero n s h enough = absurd (omega arith)
  read_inner-Got (suc fuel) n s h enough =
      settled fuel n s (λ s' less. read_inner-Got fuel n s' h (omega arith)) (read n s)
        (d.came n s h)

  -- The integer that is read is that of the bytes to come.
  abbrev pub Scanned : ℕ → List ℕ → Bool → List ℕ → Result FramingError (Option ℕ) × S → Type 0
  Scanned free used allow_eof input out =
      (s' : S) × (out ≡ ((scan free used allow_eof input).0, s'))
      × Holds s' (scan free used allow_eof input).1

  round-Scanned :
      (free : ℕ) (used : List ℕ) (allow_eof : Bool) (input bytes : List ℕ) (s after : S)
      (again : List ℕ → S → Result FramingError (Option ℕ) × S)
      → ((used' : List ℕ) (s' : S) (input' : List ℕ)
          → Holds s' input'
          → Scanned free used' allow_eof input' (again used' s'))
      → Holds s input
      → d.contents s ≡ bytes ++ d.contents after
      → length bytes ≤ 1
      → (1 ≤ length bytes) ⊎ (d.contents s ≡ [])
      → d.delays after ≤ d.delays s
      → Scanned
          (suc free)
          used
          allow_eof
          input
          (integer_round again used allow_eof (ok bytes, after))
  unfolding scan integer_round
  round-Scanned free used allow_eof [] [] s after again ih h split fits progress fewer =
      (after, refl, record { bytes = sym split ∙ h.bytes; patient = omega (arith, h.patient) })
  round-Scanned free used allow_eof (x ∷ input) [] s after again ih h split fits (inl one) fewer =
      absurd (omega arith)
  round-Scanned free used allow_eof (x ∷ input) [] s after again ih h split fits (inr end) fewer =
      let e : x ∷ input ≡ [] = sym h.bytes ∙ end in cc
  round-Scanned free used allow_eof [] (b ∷ []) s after again ih h split fits progress fewer =
      let e : [] ≡ b ∷ d.contents after = sym h.bytes ∙ split in cc
  round-Scanned free used allow_eof (x ∷ input) (b ∷ []) s after again ih h split fits p fewer =
      let e : x ∷ input ≡ b ∷ d.contents after = sym h.bytes ∙ split in
      let head : b ≡ x = cc in
      let next : Holds after input = record { bytes = cc; patient = omega (arith, h.patient) } in
      elim (Bool-cases (last_byte x)) [
        | inl l ↦ rw (head, l) (after, refl, next)
        | inr l ↦ rw (head, l) (ih (used ++ (x ∷ [])) after input next)
      ]
  round-Scanned free used allow_eof input (b ∷ c ∷ bs) s after again ih h split fits p fewer =
      absurd (omega arith)

  pub integer_loop-Scanned :
      (free : ℕ) (used : List ℕ) (allow_eof : Bool) (s : S) (input : List ℕ)
      → Holds s input
      → Scanned free used allow_eof input (integer_loop read patience buffer free used allow_eof s)
  unfolding integer_loop scan
  integer_loop-Scanned zero used allow_eof s input h = (s, refl, unfold scan in h)
  integer_loop-Scanned (suc free) used allow_eof s input h =
      let g = read_inner-Got patience 1 s (omega arith) h.patient in
      rw g.same (
        round-Scanned free used allow_eof input g.bytes s g.after _
          (λ used' s' input' h'. integer_loop-Scanned free used' allow_eof s' input' h') h g.split
          g.fits g.progress g.fewer)
