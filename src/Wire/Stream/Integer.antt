-- ===== src/Wire/Stream/Integer.antt =====
-- crates/tith-wire/src/tlv.rs: `read_integer` on a list of bytes, which is what it sees of a stream.
-- It reads the number that `decode_u64_prefix` decodes.
use tith.Base.{
  ℕ, zero, suc, ◌+◌, ◌*◌, ◌%◌, ◌^◌, ◌<◌, ◌≡◌, ◌≢◌, refl, ap, sym, ◌∙◌, arith, bit_and,
  if◌then◌else◌, Bool, true, false, Bool-cases, Option-cases, List, [], ◌∷◌, ◌++◌, length, All,
  drop, append_assoc, Option, some, Result, ok, err, ok_or, Result-cases, inl, inr, >>=-eq-ok,
}
use tith.Wire.Integer.{IsByte, overflow, max_u64_bytes, checked_mul, decode_loop, decode_u64_prefix}
use tith.Wire.Integer.Codec.{encode-decode-IsU64, length-encode_u64}
use tith.Wire.TypeCode.{FramingError, integer}
use tith.Wire.Stream.{decode_used, integer_at_end, last_byte}

-- `read_integer` where the stream holds `input`, with what it leaves.
unfoldable pub scan : ℕ → List ℕ → Bool → List ℕ → Result FramingError (Option ℕ) × List ℕ
scan zero used allow_eof input = (err (integer overflow), input)
scan (suc free) used allow_eof [] = (integer_at_end used allow_eof, [])
scan (suc free) used allow_eof (byte ∷ input) =
    let rest = scan free (used ++ (byte ∷ [])) allow_eof input in
    if last_byte byte then (decode_used (used ++ (byte ∷ [])), input) else rest

abbrev Continues : ℕ → Type 0
Continues byte = last_byte byte ≡ false

-- Where a number ends: the bytes up to its last one.
record Ends (input : List ℕ) : Type 0 where
  high : List ℕ
  low : ℕ
  rest : List ℕ
  continues : All Continues high
  ends : last_byte low ≡ true
  same : input ≡ high ++ (low ∷ rest)

Ends-longer :
    (byte : ℕ) (input : List ℕ) → last_byte byte ≡ false → Ends input → Ends (byte ∷ input)
Ends-longer byte input c e = record {
  high = byte ∷ e.high;
  low = e.low;
  rest = e.rest;
  continues = (c, e.continues);
  ends = e.ends;
  same = ap (λ x. byte ∷ x) e.same;
}

scan-Ends :
    (high : List ℕ) (low : ℕ) (rest used : List ℕ) (free : ℕ) (allow_eof : Bool)
    → All Continues high
    → last_byte low ≡ true
    → length high < free
    → scan free used allow_eof (high ++ (low ∷ rest))
      ≡ (decode_used (used ++ (high ++ (low ∷ []))), rest)
unfolding scan
scan-Ends high low rest used zero allow_eof hs l h = absurd (omega arith)
scan-Ends [] low rest used (suc free) allow_eof hs l h = rw l
scan-Ends (byte ∷ high) low rest used (suc free) allow_eof (c, cs) l h = rw c (
    scan-Ends high low rest (used ++ (byte ∷ [])) free allow_eof cs l (omega arith)
    ∙ rw (append_assoc used (byte ∷ []) (high ++ (low ∷ []))))

-- What a number is decoded to does not depend on the bytes behind it.
decode_loop_prefix :
    (high : List ℕ) (low : ℕ) (rest : List ℕ) (index value : ℕ)
    → All Continues high
    → last_byte low ≡ true
    → decode_loop (high ++ (low ∷ rest)) index value ≡ decode_loop (high ++ (low ∷ [])) index value
unfolding decode_loop
decode_loop_prefix [] low rest index value hs l = rw l
decode_loop_prefix (byte ∷ high) low rest index value (c, cs) l =
    elim (Option-cases (checked_mul value 128)) [
      | inl e ↦ rw e
      | inr (scaled, e) ↦ rw e (
          rw c (
            decode_loop_prefix high low rest (index + 1) ((scaled + bit_and byte 0x7f) % 2 ^ 64) cs
              l))
    ]

decode_prefix :
    (high : List ℕ) (low : ℕ) (rest : List ℕ)
    → All Continues high
    → last_byte low ≡ true
    → decode_u64_prefix (high ++ (low ∷ rest)) ≡ decode_u64_prefix (high ++ (low ∷ []))
unfolding decode_u64_prefix
decode_prefix [] low rest hs l = rw (decode_loop_prefix [] low rest 0 0 hs l)
decode_prefix (byte ∷ high) low rest hs l = rw (decode_loop_prefix (byte ∷ high) low rest 0 0 hs l)

decode_loop-length :
    (high : List ℕ) (low : ℕ) (rest : List ℕ) (index value v n : ℕ)
    → All Continues high
    → last_byte low ≡ true
    → decode_loop (high ++ (low ∷ rest)) index value ≡ ok (v, n)
    → n ≡ index + suc (length high)
unfolding decode_loop checked_mul
decode_loop-length [] low rest index value v n hs l e = ground arith
decode_loop-length (byte ∷ high) low rest index value v n (c, cs) l e = ground (
  arith,
  decode_loop-length high low rest (index + 1) ((value * 128 + bit_and byte 0x7f) % 2 ^ 64) v n cs
      l,
)

decode-length :
    (high : List ℕ) (low : ℕ) (rest : List ℕ) (v n : ℕ)
    → All Continues high
    → last_byte low ≡ true
    → decode_u64_prefix (high ++ (low ∷ rest)) ≡ ok (v, n)
    → n ≡ suc (length high)
unfolding decode_u64_prefix
decode-length [] low rest v n hs l e = ground (arith, decode_loop-length [] low rest 0 0 v n hs l)
decode-length (byte ∷ high) low rest v n hs l e =
    ground (arith, decode_loop-length (byte ∷ high) low rest 0 0 v n hs l)

integer_at_end-ne-some :
    (used : List ℕ) (allow_eof : Bool) {v : ℕ} {rest : List ℕ}
    → ◌≢◌ {A = Result FramingError (Option ℕ) × List ℕ}
        (integer_at_end used allow_eof, [])
        (ok (some v), rest)
unfolding integer_at_end
integer_at_end-ne-some [] true h = cc
integer_at_end-ne-some [] false h = cc
integer_at_end-ne-some (byte ∷ used) allow_eof h = cc

-- Either the number ends within the bytes that are free, or none is read.
scan_cases :
    (free : ℕ) (used : List ℕ) (allow_eof : Bool) (input : List ℕ) {v : ℕ} {rest : List ℕ}
    → scan free used allow_eof input ≡ (ok (some v), rest)
    → (e : Ends input) × (length e.high < free)
unfolding scan Ends-longer
scan_cases zero used allow_eof input h = cc
scan_cases (suc free) used allow_eof [] h = absurd (integer_at_end-ne-some used allow_eof h)
scan_cases (suc free) used allow_eof (byte ∷ input) h = elim (Bool-cases (last_byte byte)) [
  | inl l ↦ (
    record { high = []; low = byte; rest = input; continues = tt; ends = l; same = refl },
    omega arith,
  )
  | inr c ↦
      let (e, small) = scan_cases free (used ++ (byte ∷ [])) allow_eof input (rw c at h) in
      (Ends-longer byte input c e, omega arith)
]

decode_loop-Ends :
    (input : List ℕ) (index value v n : ℕ) → decode_loop input index value ≡ ok (v, n) → Ends input
unfolding decode_loop
decode_loop-Ends [] index value v n h = cc
decode_loop-Ends (byte ∷ input) index value v n h = elim (Bool-cases (last_byte byte)) [
  | inl l ↦ record { high = []; low = byte; rest = input; continues = tt; ends = l; same = refl }
  | inr c ↦
      let step = >>=-eq-ok (ok_or overflow (checked_mul value 128)) _ h in
      Ends-longer byte input c (
        decode_loop-Ends input (index + 1) ((step.0 + bit_and byte 0x7f) % 2 ^ 64) v n
          (rw c at step.2))
]

decode-Ends : (input : List ℕ) (v n : ℕ) → decode_u64_prefix input ≡ ok (v, n) → Ends input
unfolding decode_u64_prefix
decode-Ends [] v n h = cc
decode-Ends (byte ∷ input) v n h = decode_loop-Ends (byte ∷ input) 0 0 v n (ground arith)

drop-high :
    (high : List ℕ) (low : ℕ) (rest : List ℕ)
    → drop (suc (length high)) (high ++ (low ∷ rest)) ≡ rest
drop-high [] low rest = refl
drop-high (byte ∷ high) low rest = drop-high high low rest

decode_used-some :
    (used : List ℕ) {v : ℕ}
    → decode_used used ≡ ok (some v)
    → (n : ℕ) × (decode_u64_prefix used ≡ ok (v, n))
unfolding decode_used
decode_used-some used h = elim (Result-cases (decode_u64_prefix used)) [
  | inl ((v', n), e) ↦ (n, e ∙ cc (rw e at h))
  | inr (x, e) ↦ cc (rw e at h)
]

-- What the reader reads of a stream is what the decoder decodes of its bytes, and the rest is left.
pub scan-decode :
    (allow_eof : Bool) (input : List ℕ) {v : ℕ} {rest : List ℕ}
    → scan max_u64_bytes [] allow_eof input ≡ (ok (some v), rest)
    → (n : ℕ) × (decode_u64_prefix input ≡ ok (v, n)) × (rest ≡ drop n input)
scan-decode allow_eof input {v} {rest} h =
    let (e, small) = scan_cases max_u64_bytes [] allow_eof input h in
    let read = scan-Ends e.high e.low e.rest [] max_u64_bytes allow_eof e.continues e.ends small in
    let whole : (decode_used (e.high ++ (e.low ∷ [])), e.rest) ≡ (ok (some v), rest) =
      sym read ∙ rw (← e.same) h in
    let result : decode_used (e.high ++ (e.low ∷ [])) ≡ ok (some v) = ap (λ p. p.0) whole in
    let left : e.rest ≡ rest = ap (λ p. p.1) whole in
    let (n, short) = decode_used-some (e.high ++ (e.low ∷ [])) result in
    let decoded = decode_prefix e.high e.low e.rest e.continues e.ends ∙ short in
    let size = decode-length e.high e.low e.rest _ n e.continues e.ends decoded in
    (
      n,
      ap decode_u64_prefix e.same ∙ decoded,
      rw size (
          sym left
          ∙ sym (drop-high e.high e.low e.rest)
          ∙ sym (ap (drop (suc (length e.high))) e.same)),
    )

pub decode-scan :
    (allow_eof : Bool) (input : List ℕ) {v n : ℕ}
    → All IsByte input
    → decode_u64_prefix input ≡ ok (v, n)
    → scan max_u64_bytes [] allow_eof input ≡ (ok (some v), drop n input)
decode-scan allow_eof input {v} {n} hb h =
    let e = decode-Ends input v n h in
    let decoded : decode_u64_prefix (e.high ++ (e.low ∷ e.rest)) ≡ ok (v, n) = rw (← e.same) h in
    let size = decode-length e.high e.low e.rest v n e.continues e.ends decoded in
    let (fits, _, width) = encode-decode-IsU64 input v n hb h in
    let small : length e.high < max_u64_bytes = omega (arith, (length-encode_u64 v fits).1) in
    let short = sym (decode_prefix e.high e.low e.rest e.continues e.ends) ∙ decoded in
    let last : decode_used (e.high ++ (e.low ∷ [])) ≡ ok (some v) =
      unfold decode_used in rw short in
    let left : drop n input ≡ e.rest =
      rw size (ap (drop (suc (length e.high))) e.same ∙ drop-high e.high e.low e.rest) in
    rw left (
      ap (scan max_u64_bytes [] allow_eof) e.same
      ∙ scan-Ends e.high e.low e.rest [] max_u64_bytes allow_eof e.continues e.ends small
      ∙ rw last)
