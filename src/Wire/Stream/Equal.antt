-- ===== src/Wire/Stream/Equal.antt =====
-- crates/tith-wire/src/tlv.rs: the streaming reader and `parse_sequence` read the same TLVs.
use tith.Base.{
  ℕ, ◌≤◌, ◌≡◌, ◌↔◌, refl, sym, ap, ◌∙◌, arith, leb, ltb, ◌==◌, if◌then◌else◌, true, false,
  Bool-cases, List, [], length, take, drop, All, All-drop, Option, none, some, Result, ok, err,
  ◌>>=◌, map_err, >>=-eq-ok, map_err-eq-ok, inl, inr,
}
use tith.Wire.Integer.{IsByte, max_u64_bytes, decode_u64_prefix}
use tith.Wire.TypeCode.{FramingError, integer, truncated_value, require_defined_type}
use tith.Wire.Tlv.{OwnedTlv, usize_max, checked_capacity, platform_capacity, parse_next}
use tith.Wire.Stream.{Read, TlvReader, new_reader, read_first}
use tith.Wire.Stream.Integer.{scan, scan-decode, decode-scan}
use tith.Wire.Stream.Reading.{Delivers, Holds}
use tith.Wire.Stream.Reading.First.{
  Outcome, valued, sized, typed, first_of, Follows, read_first-Follows,
}

-- The end of a round of `parse_sequence`, when the type and the length are known.
abbrev parse_value : ℕ → ℕ → List ℕ → Result FramingError (OwnedTlv × List ℕ)
parse_value type_code len input = platform_capacity len >>= λ capacity.
    if ltb (length input) capacity
    then err (truncated_value capacity (length input))
    else ok (record { type_code = type_code; value = take capacity input }, drop capacity input)

parse_value-valued :
    (type_code len : ℕ) (input : List ℕ) {tlv : OwnedTlv} {rest : List ℕ}
    → (parse_value type_code len input ≡ ok (tlv, rest))
      ↔ (valued type_code len input ≡ ok (some (tlv, rest)))
unfolding valued platform_capacity checked_capacity
parse_value-valued type_code len input = elim (Bool-cases (ltb usize_max len)) [
  | inl big ↦ rw big ((λ h. cc), λ h. cc)
  | inr small ↦ elim (Bool-cases (leb len (length input))) [
    | inl whole ↦
        let e : ltb (length input) len ≡ false = ground arith in
        rw (small, e, whole) ((λ h. cc), λ h. cc)
    | inr cut ↦
        let e : ltb (length input) len ≡ true = ground arith in
        rw (small, e, cut) ((λ h. cc), λ h. cc)
  ]
]

-- The parts of the first TLV of the bytes.
record Parsed (input : List ℕ) (tlv : OwnedTlv) (rest : List ℕ) : Type 0 where
  type_code : ℕ
  n : ℕ
  len : ℕ
  m : ℕ
  coded : decode_u64_prefix input ≡ ok (type_code, n)
  defined : (type_code == 0) ≡ false
  measured : decode_u64_prefix (drop n input) ≡ ok (len, m)
  value : valued type_code len (drop m (drop n input)) ≡ ok (some (tlv, rest))

defined_code : (code : ℕ) → require_defined_type code ≡ ok tt → (code == 0) ≡ false
unfolding require_defined_type
defined_code code h = ground arith

parse_next-Parsed :
    (input : List ℕ) {tlv : OwnedTlv} {rest : List ℕ}
    → parse_next input ≡ ok (tlv, rest)
    → Parsed input tlv rest
unfolding parse_next
parse_next-Parsed input h =
    let first = >>=-eq-ok (map_err integer (decode_u64_prefix input)) _ h in
    let type_code = first.0.0 in
    let n = first.0.1 in
    let second = >>=-eq-ok (require_defined_type type_code) _ first.2 in
    let third = >>=-eq-ok (map_err integer (decode_u64_prefix (drop n input))) _ second.2 in
    record {
      type_code = type_code;
      n = n;
      len = third.0.0;
      m = third.0.1;
      coded = map_err-eq-ok integer _ first.1;
      defined = defined_code type_code second.1;
      measured = map_err-eq-ok integer _ third.1;
      value = (parse_value-valued type_code third.0.0 _).0 third.2;
    }

Parsed-parse_next :
    (input : List ℕ) {tlv : OwnedTlv} {rest : List ℕ}
    → Parsed input tlv rest
    → parse_next input ≡ ok (tlv, rest)
unfolding parse_next require_defined_type
Parsed-parse_next input p =
    rw (p.coded, p.defined, p.measured)
      ((parse_value-valued p.type_code p.len (drop p.m (drop p.n input))).1 p.value)

Parsed-first_of :
    (input : List ℕ) {tlv : OwnedTlv} {rest : List ℕ}
    → All IsByte input
    → Parsed input tlv rest
    → first_of input ≡ ok (some (tlv, rest))
unfolding first_of typed sized
Parsed-first_of input hb p =
    rw
      (
        decode-scan true input hb p.coded,
        p.defined,
        decode-scan false (drop p.n input) (All-drop IsByte p.n input hb) p.measured,
      )
      p.value

-- The integers that `first_of` reads, where it returns a TLV.
sized-eq :
    (type_code : ℕ) (r : Result FramingError (Option ℕ) × List ℕ) {x : OwnedTlv × List ℕ}
    → sized type_code r ≡ ok (some x)
    → (len : ℕ) × (r.0 ≡ ok (some len)) × (valued type_code len r.1 ≡ ok (some x))
unfolding sized
sized-eq type_code (err e, input) h = cc
sized-eq type_code (ok none, input) h = cc
sized-eq type_code (ok (some len), input) h = (len, refl, h)

typed-eq :
    (r : Result FramingError (Option ℕ) × List ℕ) {x : OwnedTlv × List ℕ}
    → typed r ≡ ok (some x)
    → (type_code : ℕ) × (r.0 ≡ ok (some type_code))
      × ((type_code == 0) ≡ false)
      × (sized type_code (scan max_u64_bytes [] false r.1) ≡ ok (some x))
unfolding typed
typed-eq (err e, input) h = cc
typed-eq (ok none, input) h = cc
typed-eq (ok (some type_code), input) h = elim (Bool-cases (type_code == 0)) [
  | inl z ↦ cc (rw z at h)
  | inr d ↦ (type_code, refl, d, rw d at h)
]

first_of-Parsed :
    (input : List ℕ) {tlv : OwnedTlv} {rest : List ℕ}
    → first_of input ≡ ok (some (tlv, rest))
    → Parsed input tlv rest
unfolding first_of
first_of-Parsed input h =
    let first = typed-eq (scan max_u64_bytes [] true input) h in
    let (n, coded, left) =
      scan-decode true input (ap (λ x. (x, (scan max_u64_bytes [] true input).1)) first.1) in
    let next = scan max_u64_bytes [] false (drop n input) in
    let second = sized-eq first.0 next (rw left at first.3) in
    let (m, measured, behind) = scan-decode false (drop n input) (ap (λ x. (x, next.1)) second.1) in
    record {
      type_code = first.0;
      n = n;
      len = second.0;
      m = m;
      coded = coded;
      defined = first.2;
      measured = measured;
      value = rw behind at second.2;
    }

module _ {S : Type 0} (read : Read S) (patience : ℕ) (buffer : List ℕ → ℕ) (d : Delivers read) where
  followed :
      (r : Outcome) (tlv : OwnedTlv) (rest : List ℕ)
      (out : Result FramingError (Option OwnedTlv) × TlvReader S)
      → Follows read patience buffer d r out
      → (s' : S) × (out ≡ (ok (some tlv), new_reader s')) × Holds read patience buffer d s' rest
      → r ≡ ok (some (tlv, rest))
  followed (err e) tlv rest out f (s', same, h) =
      cc (ap (λ (o : Result FramingError (Option OwnedTlv) × TlvReader S). o.0) same)
  followed (ok none) tlv rest out f (s', same, h) =
      cc (ap (λ (o : Result FramingError (Option OwnedTlv) × TlvReader S). o.0) same)
  followed (ok (some (tlv', rest'))) tlv rest out (s1, same1, h1) (s', same, h) =
      let both : ◌≡◌ {A = Result FramingError (Option OwnedTlv) × TlvReader S}
          (ok (some tlv'), new_reader s1) (ok (some tlv), new_reader s') =
        sym same1 ∙ same in
      let one : ◌≡◌ {A = Result FramingError (Option OwnedTlv)} (ok (some tlv')) (ok (some tlv)) =
        ap (λ o. o.0) both in
      let state : s1 ≡ s' =
        ap (λ (o : Result FramingError (Option OwnedTlv) × TlvReader S). o.1.inner) both in
      let left : rest' ≡ rest = sym h1.bytes ∙ ap d.contents state ∙ h.bytes in cc

  -- Reading the first TLV of a stream and parsing the first TLV of its bytes is the same, whatever
  -- the stream delivers at a time and however often it is interrupted. The reader returns a TLV just
  -- where a round of `parse_sequence` on the bytes to come does, it is the same TLV, and the stream
  -- is left with the bytes that are left to the parser.
  pub read_first-parse_next :
      ((value : List ℕ) → 1 ≤ buffer value)
      → (s : S) (input : List ℕ) → Holds read patience buffer d s input
      → All IsByte input
      → (tlv : OwnedTlv) (rest : List ℕ)
      → (parse_next input ≡ ok (tlv, rest)) ↔ (
          (s' : S) × (read_first read patience buffer (new_reader s)
            ≡ (ok (some tlv), new_reader s'))
          × Holds read patience buffer d s' rest)
  read_first-parse_next offers s input h hb tlv rest =
      let follows = read_first-Follows read patience buffer d offers s input h in
      (
        λ e. rw (Parsed-first_of input hb (parse_next-Parsed input e)) at follows,
        λ back.
            Parsed-parse_next input
              (first_of-Parsed input (followed (first_of input) tlv rest _ follows back)),
      )
