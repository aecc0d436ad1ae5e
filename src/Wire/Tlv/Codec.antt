-- ===== src/Wire/Tlv/Codec.antt =====
-- The owned TLV codec is a bijection: `parse_sequence` inverts `write_to`, and accepts nothing else.
use tith.Base.{
  ℕ, ◌≤◌, ◌≡◌, ◌≢◌, sym, ap, ◌∙◌, arith, ltb, ◌==◌, if◌then◌else◌, List, [], ◌++◌, length, take,
  drop, All, length-append, take_append, drop_append, append_assoc, none, some, Result, ok, err,
  >>=-eq-ok, map_err, map_err-eq-ok, All-drop, length-take, take-append-drop, subst,
}
use native.Mathlib.Decide.{ℕ_discrete}
use tith.Wire.Integer.{IsByte, IsU64, encode_u64, decode_u64_prefix}
use tith.Wire.Integer.Codec.{decode-encode_u64, encode-decode-IsU64}
use tith.Wire.TypeCode.{FramingError, invalid_type, truncated_value, integer, require_defined_type}
use tith.Wire.Tlv.{
  OwnedTlv, usize_max, platform_capacity, encoded_len, write_to, encode, parse_next,
}

-- What the source's type and `OwnedTlv::new` guarantee: a u64 code other than zero, and a length
-- that a `usize` holds.
pub record IsValid (t : OwnedTlv) : Type 0 where
  pub defined : t.type_code ≢ 0
  pub code : IsU64 t.type_code
  pub fits : length t.value ≤ usize_max

-- The bytes of a valid TLV.
unfoldable pub image : OwnedTlv → List ℕ
image t = encode_u64 t.type_code ++ (encode_u64 (length t.value) ++ t.value)

pub write_to-image :
    (t : OwnedTlv) (writer : List ℕ) → t.type_code ≢ 0 → write_to t writer ≡ ok (writer ++ image t)
unfolding write_to image
write_to-image t writer h = ground (
  arith,
  append_assoc writer (encode_u64 t.type_code) (encode_u64 (length t.value)),
  append_assoc writer (encode_u64 t.type_code ++ encode_u64 (length t.value)) t.value,
  append_assoc (encode_u64 t.type_code) (encode_u64 (length t.value)) t.value,
)

write_to-zero :
    (t : OwnedTlv) (writer : List ℕ) → t.type_code ≡ 0 → write_to t writer ≡ err invalid_type
unfolding write_to
write_to-zero t writer h = ground arith

pub encode-image : (t : OwnedTlv) → t.type_code ≢ 0 → encode t ≡ some (image t)
unfolding encode
encode-image t h = ground (arith, write_to-image t [] h)

length-image : (t : OwnedTlv) → length (image t) ≡ encoded_len t
unfolding image encoded_len
length-image t = omega (
  arith,
  length-append {0} (encode_u64 t.type_code) (encode_u64 (length t.value) ++ t.value),
  length-append {0} (encode_u64 (length t.value)) t.value,
)

-- Encoding panics exactly on a type code of zero; otherwise it gives the code, the length and the
-- value, one after the other, which are as many bytes as `encoded_len` says.
pub encode_lem :
    (t : OwnedTlv)
    → (encode t ≡ (if t.type_code == 0 then none else some (image t)))
      × (length (image t) ≡ encoded_len t)
encode_lem t = elim (ℕ_discrete t.type_code 0) [
  | yes h ↦ (unfold encode in ground (arith, write_to-zero t [] h), length-image t)
  | no h ↦ (ground (arith, encode-image t h), length-image t)
]

capacity-fits : (n : ℕ) → n ≤ usize_max → platform_capacity n ≡ ok n
unfolding platform_capacity
capacity-fits n h = ground arith

-- One round reads back a valid TLV and leaves what follows it.
pub parse_next-image :
    (t : OwnedTlv) (rest : List ℕ) → IsValid t → parse_next (image t ++ rest) ≡ ok (t, rest)
unfolding parse_next
parse_next-image t rest v =
    rw
      (
        image_append t rest,
        decode-encode_u64 t.type_code v.code _,
        defined t.type_code v.defined,
        drop_append (encode_u64 t.type_code) _,
        decode-encode_u64 (length t.value) size _,
        drop_append (encode_u64 (length t.value)) _,
        capacity-fits (length t.value) v.fits,
      )
      (ground
        (arith, length-append t.value rest, take_append t.value rest, drop_append t.value rest))
  where
    size : IsU64 (length t.value)
    size = omega (arith, v.fits)

    defined : (c : ℕ) → c ≢ 0 → require_defined_type c ≡ ok tt
    defined c h = unfold require_defined_type in ground arith

    image_append :
        (t : OwnedTlv) (rest : List ℕ)
        → image t ++ rest
          ≡ encode_u64 t.type_code ++ (encode_u64 (length t.value) ++ (t.value ++ rest))
    image_append t rest = unfold image in simp append_assoc

-- The value and the bytes behind it, once the length is known.
value_read :
    (c n : ℕ) (after : List ℕ) (t : OwnedTlv) (rest : List ℕ)
    → c ≢ 0
    → IsU64 c
    → n ≤ usize_max
    → ◌≡◌ {A = Result FramingError (OwnedTlv × List ℕ)}
        (if ltb (length after) n
          then err (truncated_value n (length after))
          else ok (record { type_code = c; value = take n after }, drop n after))
        (ok (t, rest))
    → IsValid t × (encode_u64 c ++ (encode_u64 n ++ after) ≡ image t ++ rest)
unfolding image
value_read c n after t rest hc fits small e =
    rw (← et, ← er)
      (
        record { defined = hc; code = fits; fits = omega (arith, size, small) },
        rw size (
            ap (λ x. encode_u64 c ++ (encode_u64 n ++ x)) (sym (take-append-drop n after))
            ∙ regroup),
      )
  where
    et : ◌≡◌ {A = OwnedTlv} (record { type_code = c; value = take n after }) t
    et = ground (arith, e)

    enough : n ≤ length after
    enough = ground arith

    size : length (take n after) ≡ n
    size = length-take n after enough

    er : drop n after ≡ rest
    er = ground (arith, e)

    regroup :
        encode_u64 c ++ (encode_u64 n ++ (take n after ++ drop n after))
        ≡ (encode_u64 c ++ (encode_u64 n ++ take n after)) ++ drop n after
    regroup = simp append_assoc

-- What one round accepts is the image of a valid TLV.
pub parse_next_inverse :
    (bytes : List ℕ) (t : OwnedTlv) (rest : List ℕ)
    → All IsByte bytes
    → parse_next bytes ≡ ok (t, rest)
    → IsValid t × (bytes ≡ image t ++ rest)
unfolding parse_next
parse_next_inverse bytes t rest hb e =
    let (p, e1, f1) = >>=-eq-ok (map_err integer (decode_u64_prefix bytes)) _ e in
    let (c, n) = p in
    let (u, e2, f2) = >>=-eq-ok (require_defined_type c) _ f1 in
    let (q, e3, f3) = >>=-eq-ok (map_err integer (decode_u64_prefix (drop n bytes))) _ f2 in
    let (len, m) = q in
    let (capacity, e4, f4) = >>=-eq-ok (platform_capacity len) _ f3 in
    let (fits, same, _) = encode-decode-IsU64 bytes c n hb (map_err-eq-ok integer _ e1) in
    let (fits', same', _) =
      encode-decode-IsU64 (drop n bytes) len m (All-drop IsByte n bytes hb)
        (map_err-eq-ok integer _ e3) in
    let (ecap, small) = capacity_inverse len capacity e4 in
    let (v, whole) =
      value_read c capacity (drop m (drop n bytes)) t rest (defined c u e2) fits small f4 in
    (
      v,
      same
          ∙ ap (λ x. encode_u64 c ++ x) same'
          ∙ subst (λ l. encode_u64 c ++ (encode_u64 l ++ drop m (drop n bytes)) ≡ image t ++ rest)
              (sym ecap) whole,
    )
  where
    defined : (c : ℕ) (u : Unit {0}) → require_defined_type c ≡ ok u → c ≢ 0
    defined c u h = unfold require_defined_type in ground arith

    capacity_inverse : (l n : ℕ) → platform_capacity l ≡ ok n → (l ≡ n) × (n ≤ usize_max)
    capacity_inverse l n h = unfold platform_capacity in ground arith
