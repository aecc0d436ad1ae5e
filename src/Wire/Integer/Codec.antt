-- ===== src/Wire/Integer/Codec.antt =====
-- The theorems of integer.rs: the codec is a bijection between u64s and accepted encodings.
use tith.Base.{
  ℕ, zero, suc, ◌+◌, ◌-◌, ◌*◌, ◌/◌, ◌%◌, ◌^◌, ◌≤◌, ◌<◌, ◌≡◌, ◌≢◌, refl, ap, sym, ◌∙◌, arith, List,
  [], ◌∷◌, ◌++◌, length, All, take, drop, take-append-drop, ◌==◌, if◌then◌else◌, ok, err,
  append-nil, >>=-eq-ok, drop-length,
}
use native.Mathlib.Decide.{dec_lt, ℕ_discrete}
use tith.Base.Bits.{low_bits, top_bit}
use tith.Wire.Integer.{
  overflow, trailing_bytes, IsU64, IsByte, max_u64_bytes, encode_u64, decode_loop,
  decode_u64_prefix, decode_u64,
}
use tith.Wire.Integer.Groups.{
  shift, shift-suc, shift-le, shift_stays-zero, bytes_below, length-bytes_below, used,
  encode-bytes_below, IsWidth, IsWidth-unique, used-IsWidth, used_bounds,
}

-- One round of the decoder, on a last byte and on a byte with the top bit set.
loop_last :
    (b v index : ℕ) (rest : List ℕ)
    → b < 128
    → v * 128 < 2 ^ 64
    → decode_loop (b ∷ rest) index v ≡ ok (v * 128 + b, index + 1)
unfolding decode_loop
loop_last b v index rest hb hv = ground (arith, low_bits b, top_bit b)

loop_more :
    (b v index : ℕ) (rest : List ℕ)
    → 128 ≤ b
    → b < 256
    → v * 128 < 2 ^ 64
    → decode_loop (b ∷ rest) index v ≡ decode_loop rest (index + 1) (v * 128 + b % 128)
unfolding decode_loop
loop_more b v index rest hb hc hv = ground (arith, low_bits b, top_bit b)

loop_overflow :
    (b v index : ℕ) (rest : List ℕ)
    → 2 ^ 64 ≤ v * 128
    → decode_loop (b ∷ rest) index v ≡ err overflow
unfolding decode_loop
loop_overflow b v index rest hv = ground arith

decode_loop-bytes_below :
    (i v index : ℕ) (rest : List ℕ)
    → IsU64 v
    → decode_loop (bytes_below (suc i) v ++ rest) index (shift v (suc i)) ≡ ok (v, index + suc i)
unfolding bytes_below
decode_loop-bytes_below zero v index rest h =
    unfold shift in ground (arith, loop_last (v % 128) (v / 128) index rest)
decode_loop-bytes_below (suc i) v index rest h = ground (
  arith,
  shift-le v (suc i),
  shift-suc v (suc i),
  loop_more (shift v (suc i) % 128 + 128) (shift v (suc (suc i))) index
      (bytes_below (suc i) v ++ rest),
  decode_loop-bytes_below i v (index + 1) rest h,
)

-- What a decoded prefix of `k` bytes says: the bytes are those of `v`, and `value` what stands above.
record Reads (bytes : List ℕ) (index value v n k : ℕ) : Type 0 where
  fits : IsU64 v
  ends : n ≡ index + suc k
  above : shift v (suc k) ≡ value
  same : take (suc k) bytes ≡ bytes_below (suc k) v
  enough : suc k ≤ length bytes

Reads-last :
    (b index value : ℕ) (bytes : List ℕ)
    → b < 128
    → value * 128 < 2 ^ 64
    → Reads (b ∷ bytes) index value (value * 128 + b) (index + 1) 0
unfolding bytes_below shift
Reads-last b index value bytes h k = record {
  fits = omega arith;
  ends = omega arith;
  above = omega arith;
  same = ap (λ t. t ∷ []) (omega arith);
  enough = omega arith;
}

Reads-more :
    (b index value v n k : ℕ) (bytes : List ℕ)
    → 128 ≤ b
    → b < 256
    → Reads bytes (index + 1) (value * 128 + b % 128) v n k
    → Reads (b ∷ bytes) index value v n (suc k)
unfolding bytes_below
Reads-more b index value v n k bytes h h' r = record {
  fits = r.fits;
  ends = omega (arith, r.ends);
  above = omega (arith, r.above, shift-suc v (suc k));
  same = ground (arith, r.same, r.above);
  enough = omega (arith, r.enough);
}

decode_loop-Reads :
    (bytes : List ℕ) (index value v n : ℕ)
    → All IsByte bytes
    → decode_loop bytes index value ≡ ok (v, n)
    → (k : ℕ) × Reads bytes index value v n k
decode_loop-Reads [] index value v n hb e = unfold decode_loop in cc
decode_loop-Reads (b ∷ bytes) index value v n (hb, hbs) e = elim (dec_lt (value * 128) (2 ^ 64)) [
  | no big ↦ cc (loop_overflow b value index bytes (omega arith))
  | yes small ↦ elim (dec_lt b 128) [
    | yes h ↦
        let last = sym (loop_last b value index bytes h small) ∙ e in
        let ev : v ≡ value * 128 + b = cc last in
        let en : n ≡ index + 1 = cc last in
        (0, rw (ev, en) (Reads-last b index value bytes h small))
    | no h ↦
        let (k, r) =
          decode_loop-Reads bytes (index + 1) (value * 128 + b % 128) v n hbs
            (sym (loop_more b value index bytes (omega arith) hb small) ∙ e) in
        (suc k, Reads-more b index value v n k bytes (omega arith) hb r)
  ]
]

-- A first byte that is not 0x80 leaves no room for a leading group of zeros.
first_group :
    (first v n k : ℕ) (bytes : List ℕ)
    → first ≢ 0x80
    → Reads (first ∷ bytes) 0 0 v n k
    → IsWidth v (suc k)
first_group first v n k bytes h r = record {
  positive = omega arith;
  reaches = r.above;
  least = λ m a b z. h (leading k m a b z (r.same));
}
  where
    leading :
        (k m : ℕ)
        → 1 ≤ m
        → m < suc k
        → shift v m ≡ 0
        → take (suc k) (first ∷ bytes) ≡ bytes_below (suc k) v
        → first ≡ 0x80
    leading zero m a b z same = absurd (omega arith)
    leading (suc k) m a b z same =
        let e : m + (suc k - m) ≡ suc k = omega arith in
        let top : shift v (suc k) ≡ 0 = rw e at (shift_stays-zero v m (suc k - m) z) in
        unfold bytes_below in ground (arith, top, same)

prefix-bytes_below :
    (k v : ℕ) (rest : List ℕ)
    → IsU64 v
    → IsWidth v (suc k)
    → decode_u64_prefix (bytes_below (suc k) v ++ rest) ≡ ok (v, suc k)
unfolding bytes_below decode_u64_prefix
prefix-bytes_below zero v rest h w =
    ground (arith, w.reaches, decode_loop-bytes_below zero v 0 rest h)
prefix-bytes_below (suc k) v rest h w = ground (
  arith,
  w.reaches,
  shift-suc v (suc k),
  w.least (suc k),
  decode_loop-bytes_below (suc k) v 0 rest h,
)

module _ (v : ℕ) (fits : IsU64 v) where
  -- The encoding of a u64 takes one to ten bytes.
  pub length-encode_u64 : (1 ≤ length (encode_u64 v)) × (length (encode_u64 v) ≤ max_u64_bytes)
  length-encode_u64 = rw (encode-bytes_below v, length-bytes_below (used v) v) (used_bounds v fits)

  -- Decoding reads back what was encoded, says how long it was, and leaves whatever follows it.
  pub decode-encode_u64 :
      (rest : List ℕ) → decode_u64_prefix (encode_u64 v ++ rest) ≡ ok (v, length (encode_u64 v))
  decode-encode_u64 rest =
      let w = used-IsWidth v fits in
      let e : used v ≡ suc (used v - 1) = omega (arith, w.positive) in
      rw (encode-bytes_below v, length-bytes_below (used v) v, e)
        (prefix-bytes_below (used v - 1) v rest fits (rw e at w))

  -- The whole input is one encoding.
  pub decode_u64-encode : decode_u64 (encode_u64 v) ≡ ok v
  unfolding decode_u64
  decode_u64-encode =
      let whole = rw (append-nil (encode_u64 v)) at (decode-encode_u64 []) in
      rw whole (ground arith)

encoding_read :
    (first v n k : ℕ) (bytes : List ℕ)
    → first ≢ 0x80
    → Reads (first ∷ bytes) 0 0 v n k
    → (first ∷ bytes ≡ encode_u64 v ++ drop n (first ∷ bytes)) × (n ≡ length (encode_u64 v))
encoding_read first v n k bytes h r =
    let w = first_group first v n k bytes h r in
    let width = IsWidth-unique v (used v) (suc k) (used-IsWidth v r.fits) w in
    let en : n ≡ suc k = omega (arith, r.ends) in
    rw (encode-bytes_below v, width, length-bytes_below (suc k) v, en)
      (rw (← r.same) (sym (take-append-drop (suc k) (first ∷ bytes))), refl)

-- Whatever is decoded is a u64, and the bytes that were read are its encoding: no number has
-- a second accepted form.
pub encode-decode-IsU64 :
    (bytes : List ℕ) (v n : ℕ)
    → All IsByte bytes
    → decode_u64_prefix bytes ≡ ok (v, n)
    → IsU64 v × (bytes ≡ encode_u64 v ++ drop n bytes) × (n ≡ length (encode_u64 v))
encode-decode-IsU64 [] v n hb e = unfold decode_u64_prefix in cc
encode-decode-IsU64 (first ∷ bytes) v n hb e = elim (ℕ_discrete first 0x80) [
  | yes h ↦ unfold decode_u64_prefix in ground arith
  | no h ↦
      let (k, r) =
        decode_loop-Reads (first ∷ bytes) 0 0 v n hb (unfold decode_u64_prefix in ground arith) in
      let (same, ends) = encoding_read first v n k bytes h r in (r.fits, same, ends)
]

-- `decode_u64` accepts nothing but encodings.
pub encode_u64-decode :
    (bytes : List ℕ) (v : ℕ)
    → All IsByte bytes
    → decode_u64 bytes ≡ ok v
    → IsU64 v × (bytes ≡ encode_u64 v)
unfolding decode_u64
encode_u64-decode bytes v hb e = finish (>>=-eq-ok (decode_u64_prefix bytes) _ e)
  where
    finish :
        (p : ℕ × ℕ) × (decode_u64_prefix bytes ≡ ok p)
          × ((if p.1 == length bytes then ok p.0 else err trailing_bytes) ≡ ok v)
        → IsU64 v × (bytes ≡ encode_u64 v)
    finish ((m, n), em, ev) =
        let en : n ≡ length bytes = ground arith in
        let eq : m ≡ v = ground arith in
        let (fits, same, size) = encode-decode-IsU64 bytes m n hb em in
        rw (← eq) (fits, same ∙ rw (en, drop-length bytes) (append-nil (encode_u64 m)))
