-- ===== src/Wire/Runs.antt =====
-- Concrete runs of the wire codecs, and their theorems at concrete inputs.
use tith.Base.{
  ℕ, ◌≡◌, ◌≢◌, refl, arith, List, [], ◌∷◌, ◌++◌, length, drop, All, some, ok, err, negsuc,
}
use tith.Base.{pos}
use tith.Wire.Address.{Address, Identity}
use tith.Wire.Integer.{
  IsU64, non_canonical, overflow, groups, emit, encode_u64, decode_loop, decode_u64_prefix,
  decode_u64,
}
use tith.Wire.Integer.Codec.{decode-encode_u64, encode-decode-IsU64}
use tith.Wire.Signed.{decode_i64}
use tith.Wire.TypeCode.{invalid_type, truncated_value, stuck}
use tith.Wire.Tlv.{OwnedTlv, parse_next, parse_loop, parse_sequence, concatenate}
use tith.Wire.Tlv.Codec.{IsValid}
use tith.Wire.Tlv.Sequence.{
  parse_sequence-concatenate, concatenate-parse_sequence, parse_sequence-ne-stuck,
}

encode_16384 : encode_u64 16384 ≡ 0x81 ∷ 0x80 ∷ 0 ∷ []
unfolding encode_u64 groups emit
encode_16384 = refl

decode_378 : decode_u64_prefix (0x82 ∷ 0x7a ∷ 9 ∷ []) ≡ ok (378, 2)
unfolding decode_u64_prefix decode_loop
decode_378 = refl

decode_padded : decode_u64_prefix (0x80 ∷ 1 ∷ []) ≡ err non_canonical
unfolding decode_u64_prefix
decode_padded = refl

decode_wide :
    decode_u64_prefix
      (0xff ∷ 0xff ∷ 0xff ∷ 0xff ∷ 0xff ∷ 0xff ∷ 0xff ∷ 0xff ∷ 0xff ∷ 0xff ∷ 0xff ∷ [])
    ≡ err overflow
unfolding decode_u64_prefix decode_loop
decode_wide = refl

decode-encode_u64_example :
    decode_u64_prefix (encode_u64 16384 ++ (7 ∷ [])) ≡ ok (16384, length (encode_u64 16384))
decode-encode_u64_example = decode-encode_u64 16384 (omega arith) (7 ∷ [])

encode-decode-IsU64_example :
    IsU64 378
    × (0x82 ∷ 0x7a ∷ 9 ∷ [] ≡ encode_u64 378 ++ drop 2 (0x82 ∷ 0x7a ∷ 9 ∷ []))
    × (2 ≡ length (encode_u64 378))
encode-decode-IsU64_example =
    encode-decode-IsU64 (0x82 ∷ 0x7a ∷ 9 ∷ []) 378 2 (omega arith) decode_378

decode_minus_two : decode_i64 (3 ∷ []) ≡ ok (negsuc 1)
unfolding decode_i64 decode_u64 decode_u64_prefix decode_loop
decode_minus_two = refl

abbrev hello : OwnedTlv
hello = record { type_code = 64; value = 104 ∷ 105 ∷ [] }

parse_hello : parse_sequence (64 ∷ 2 ∷ 104 ∷ 105 ∷ []) ≡ ok (hello ∷ [])
unfolding parse_sequence parse_loop parse_next decode_u64_prefix decode_loop
parse_hello = refl

parse_truncated : parse_sequence (64 ∷ 3 ∷ 104 ∷ 105 ∷ []) ≡ err (truncated_value 3 2)
unfolding parse_sequence parse_loop parse_next decode_u64_prefix decode_loop
parse_truncated = refl

parse_type_zero : parse_sequence (0 ∷ 0 ∷ []) ≡ err invalid_type
unfolding parse_sequence parse_loop parse_next decode_u64_prefix decode_loop
parse_type_zero = refl

hello-IsValid : IsValid hello
hello-IsValid = record { defined = omega arith; code = omega arith; fits = omega arith }

parse_sequence-concatenate_example :
    (bytes : List ℕ) × (concatenate (hello ∷ hello ∷ []) ≡ some bytes)
    × (parse_sequence bytes ≡ ok (hello ∷ hello ∷ []))
parse_sequence-concatenate_example =
    parse_sequence-concatenate (hello ∷ hello ∷ []) (hello-IsValid, (hello-IsValid, tt))

concatenate-parse_sequence_example :
    All IsValid (hello ∷ []) × (concatenate (hello ∷ []) ≡ some (64 ∷ 2 ∷ 104 ∷ 105 ∷ []))
concatenate-parse_sequence_example =
    concatenate-parse_sequence (64 ∷ 2 ∷ 104 ∷ 105 ∷ []) (hello ∷ []) (omega arith) parse_hello

parse_sequence-ne-stuck_example : parse_sequence (64 ∷ 3 ∷ 104 ∷ 105 ∷ []) ≢ err stuck
parse_sequence-ne-stuck_example = parse_sequence-ne-stuck (64 ∷ 3 ∷ 104 ∷ 105 ∷ []) (omega arith)

abbrev node : Address
node = record { domain = b'n' ∷ []; zone = pos 1; net = pos 2; node = pos 3; point = 4 }

abbrev listed : Identity
listed = record { address = node; public_key = 1 ∷ [] }

abbrev rekeyed : Identity
rekeyed = record { address = node; public_key = 2 ∷ [] }
