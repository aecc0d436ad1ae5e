-- ===== src/Wire/Cursor/Walk.antt =====
-- crates/tith-wire/src/item_format_impl.rs, `encoded_prefix` against `parse_sequence`.
use tith.Base.{
  ℕ, ◌≡◌, ◌≢◌, sym, ap, ◌∙◌, arith, List, [], ◌∷◌, ◌++◌, All, append-nil, append_assoc, ok,
}
use tith.Wire.Integer.{IsU64, encode_u64}
use tith.Wire.Integer.Codec.{length-encode_u64}
use tith.Wire.Tlv.{OwnedTlv}
use tith.Wire.Tlv.Codec.{IsValid, image, write_to-image}
use tith.Wire.Tlv.Sequence.{images}
use tith.Wire.Cursor.{encoded_onto, encoded_prefix}

encoded_onto-images :
    (ts : List OwnedTlv) (output : List ℕ)
    → All IsValid ts
    → encoded_onto output ts ≡ ok (output ++ images ts)
unfolding encoded_onto images
encoded_onto-images [] output h = ap ok (sym (append-nil output))
encoded_onto-images (t ∷ ts) output (v, vs) =
    rw (write_to-image t output v.defined, encoded_onto)
      (encoded_onto-images ts (output ++ image t) vs
        ∙ ap ok (append_assoc output (image t) (images ts)))

pub encoded_prefix-images :
    (ts : List OwnedTlv) → All IsValid ts → encoded_prefix ts ≡ ok (images ts)
unfolding encoded_prefix
encoded_prefix-images ts h = encoded_onto-images ts [] h

-- A TLV whose value is the encoding of a number.
pub number-IsValid :
    (type_code n : ℕ)
    → type_code ≢ 0
    → IsU64 type_code
    → IsU64 n
    → IsValid (record { type_code = type_code; value = encode_u64 n })
number-IsValid type_code n d c h = record {
  defined = d;
  code = c;
  fits = omega (arith, (length-encode_u64 n h).1);
}
