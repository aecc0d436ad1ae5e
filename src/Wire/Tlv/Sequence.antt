-- ===== src/Wire/Tlv/Sequence.antt =====
-- Sequences of TLVs: `parse_sequence` inverts `concatenate`, accepts nothing else, and always ends.
use tith.Base.{
  ℕ, zero, suc, ◌≤◌, ◌<◌, ◌≡◌, ◌≢◌, refl, sym, ap, ◌∙◌, subst, arith, List, [], ◌∷◌, ◌++◌, length,
  All, All-append_right, length-append, append-nil, append_assoc, some, ok, err, Result-cases, inl,
  inr,
}
use tith.Wire.Integer.{IsByte, decode_u64_prefix}
use tith.Wire.Integer.Codec.{length-encode_u64}
use tith.Wire.TypeCode.{FramingError, stuck}
use tith.Wire.Tlv.{
  OwnedTlv, parse_next, parse_loop, parse_sequence, concatenate_onto, concatenate, checked_capacity,
}
use tith.Wire.Tlv.Codec.{IsValid, image, write_to-image, parse_next-image, parse_next_inverse}

unfoldable pub images : List OwnedTlv → List ℕ
images [] = []
images (t ∷ ts) = image t ++ images ts

pub concatenate_onto-images :
    (ts : List OwnedTlv) (output : List ℕ)
    → All IsValid ts
    → concatenate_onto output ts ≡ some (output ++ images ts)
unfolding concatenate_onto images
concatenate_onto-images [] output h = ap some (sym (append-nil output))
concatenate_onto-images (t ∷ ts) output (v, vs) =
    rw (write_to-image t output v.defined, concatenate_onto)
      (concatenate_onto-images ts (output ++ image t) vs
        ∙ ap some (append_assoc output (image t) (images ts)))

pub length-image : (t : OwnedTlv) → IsValid t → 1 ≤ length (image t)
unfolding image
length-image t v = rw length-append (omega (arith, (length-encode_u64 t.type_code v.code).0))

-- A round takes at least one byte.
parse_next_shorter :
    (bytes : List ℕ) (t : OwnedTlv) (rest : List ℕ)
    → All IsByte bytes
    → parse_next bytes ≡ ok (t, rest)
    → length rest < length bytes
parse_next_shorter bytes t rest hb e =
    let (v, same) = parse_next_inverse bytes t rest hb e in
    rw (same, length-append) (omega (arith, length-image t v))

parse_loop_step :
    (fuel : ℕ) (bytes : List ℕ) (values : List OwnedTlv) {t : OwnedTlv} {rest : List ℕ}
    → parse_next bytes ≡ ok (t, rest)
    → parse_loop (suc fuel) bytes values ≡ parse_loop fuel rest (values ++ (t ∷ []))
unfolding parse_loop
parse_loop_step fuel [] values e = unfold parse_next decode_u64_prefix in cc
parse_loop_step fuel (b ∷ bytes) values e = rw e

parse_loop_error :
    (fuel : ℕ) (b : ℕ) (bytes : List ℕ) (values : List OwnedTlv) {x : FramingError}
    → parse_next (b ∷ bytes) ≡ err x
    → parse_loop (suc fuel) (b ∷ bytes) values ≡ err x
unfolding parse_loop
parse_loop_error fuel b bytes values e = rw e

parse_loop-images :
    (ts : List OwnedTlv) (fuel : ℕ) (values : List OwnedTlv)
    → All IsValid ts
    → length (images ts) ≤ fuel
    → parse_loop fuel (images ts) values ≡ ok (values ++ ts)
unfolding images
parse_loop-images [] fuel values h enough = unfold parse_loop in ap ok (sym (append-nil values))
parse_loop-images (t ∷ ts) zero values (v, vs) enough =
    absurd (omega (arith, length-append {0} (image t) (images ts), length-image t v))
parse_loop-images (t ∷ ts) (suc fuel) values (v, vs) enough =
    parse_loop_step fuel _ values (parse_next-image t (images ts) v)
    ∙ parse_loop-images ts fuel (values ++ (t ∷ [])) vs
        (omega (arith, length-append {0} (image t) (images ts), length-image t v))
    ∙ ap ok (append_assoc values (t ∷ []) ts)

pub parse_sequence-images :
    (ts : List OwnedTlv) → All IsValid ts → parse_sequence (images ts) ≡ ok ts
unfolding parse_sequence
parse_sequence-images ts h = parse_loop-images ts _ [] h (omega arith)

-- Parsing reads back what `concatenate` wrote for valid TLVs.
pub parse_sequence-concatenate :
    (ts : List OwnedTlv)
    → All IsValid ts
    → (bytes : List ℕ) × (concatenate ts ≡ some bytes) × (parse_sequence bytes ≡ ok ts)
unfolding concatenate parse_sequence
parse_sequence-concatenate ts h =
    (images ts, concatenate_onto-images ts [] h, parse_sequence-images ts h)

rest_bytes :
    (bytes : List ℕ) (t : OwnedTlv) (rest : List ℕ)
    → All IsByte bytes
    → parse_next bytes ≡ ok (t, rest)
    → All IsByte rest
rest_bytes bytes t rest hb e =
    All-append_right IsByte (image t) rest
      (subst (All IsByte) (parse_next_inverse bytes t rest hb e).1 hb)

-- With enough fuel the loop ends, and what it accepts is the image of valid TLVs.
parse_loop_inverse :
    (fuel : ℕ) (bytes : List ℕ) (values ts : List OwnedTlv)
    → All IsByte bytes
    → parse_loop fuel bytes values ≡ ok ts
    → (more : List OwnedTlv) × All IsValid more × (bytes ≡ images more) × (ts ≡ values ++ more)
parse_loop_inverse fuel [] values ts hb e =
    ([], tt, (unfold images in refl), (unfold parse_loop in rw (append-nil values) (cc)))
parse_loop_inverse zero (b ∷ bytes) values ts hb e = unfold parse_loop in cc
parse_loop_inverse (suc fuel) (b ∷ bytes) values ts hb e =
    elim (Result-cases (parse_next (b ∷ bytes))) [
      | inr (x, h) ↦ cc (parse_loop_error fuel b bytes values h)
      | inl ((t, rest), h) ↦ step t rest h (
          parse_loop_inverse fuel rest (values ++ (t ∷ [])) ts (rest_bytes (b ∷ bytes) t rest hb h)
            (sym (parse_loop_step fuel _ values h) ∙ e))
    ]
  where
    step :
        (t : OwnedTlv) (rest : List ℕ)
        → parse_next (b ∷ bytes) ≡ ok (t, rest)
        → (more : List OwnedTlv) × All IsValid more
          × (rest ≡ images more)
          × (ts ≡ (values ++ (t ∷ [])) ++ more)
        → (more : List OwnedTlv) × All IsValid more
          × (b ∷ bytes ≡ images more)
          × (ts ≡ values ++ more)
    step t rest h (more, vs, same, eq) =
        let (v, image_same) = parse_next_inverse (b ∷ bytes) t rest hb h in
        (
          t ∷ more,
          (v, vs),
          image_same ∙ (unfold images in ap (λ x. image t ++ x) same),
          eq ∙ append_assoc values (t ∷ []) more,
        )

parse_next-ne-stuck : (bytes : List ℕ) → parse_next bytes ≢ err stuck
unfolding parse_next checked_capacity
parse_next-ne-stuck bytes = ground arith

parse_loop-ne-stuck :
    (fuel : ℕ) (bytes : List ℕ) (values : List OwnedTlv)
    → All IsByte bytes
    → length bytes ≤ fuel
    → parse_loop fuel bytes values ≢ err stuck
parse_loop-ne-stuck fuel [] values hb enough e = unfold parse_loop in cc
parse_loop-ne-stuck zero (b ∷ bytes) values hb enough e = absurd (omega arith)
parse_loop-ne-stuck (suc fuel) (b ∷ bytes) values hb enough e =
    elim (Result-cases (parse_next (b ∷ bytes))) [
      | inr (x, h) ↦
          parse_next-ne-stuck (b ∷ bytes) (h ∙ cc (parse_loop_error fuel b bytes values h))
      | inl ((t, rest), h) ↦
          parse_loop-ne-stuck fuel rest (values ++ (t ∷ [])) (rest_bytes (b ∷ bytes) t rest hb h)
            (omega (arith, parse_next_shorter (b ∷ bytes) t rest hb h))
            (sym (parse_loop_step fuel _ values h) ∙ e)
    ]

-- Whatever is accepted is what `concatenate` writes for the valid TLVs that are returned.
pub concatenate-parse_sequence :
    (bytes : List ℕ) (ts : List OwnedTlv)
    → All IsByte bytes
    → parse_sequence bytes ≡ ok ts
    → All IsValid ts × (concatenate ts ≡ some bytes)
unfolding parse_sequence concatenate
concatenate-parse_sequence bytes ts hb e =
    let (more, vs, same, eq) = parse_loop_inverse (length bytes) bytes [] ts hb e in
    rw (eq, same) (vs, concatenate_onto-images more [] vs)

-- The loop always ends: no input exhausts the fuel.
pub parse_sequence-ne-stuck : (bytes : List ℕ) → All IsByte bytes → parse_sequence bytes ≢ err stuck
unfolding parse_sequence
parse_sequence-ne-stuck bytes hb = parse_loop-ne-stuck (length bytes) bytes [] hb (omega arith)
