-- ===== src/Wire/Signed.antt =====
-- crates/tith-wire/src/signed_integer.rs: TTS-0007 signed integers over the unsigned codec.
use tith.Base.{
  ℕ, ◌+◌, ◌-◌, ◌*◌, ◌/◌, ◌%◌, ◌^◌, ◌<◌, ◌≡◌, arith, List, ◌==◌, if◌then◌else◌, Result, ok, ◌>>=◌, ℤ,
  pos, negsuc, All, >>=-eq-ok,
}
use tith.Wire.Integer.{IntegerError, IsByte, encode_u64, decode_u64}
use tith.Wire.Integer.Codec.{decode_u64-encode, encode_u64-decode}

abbrev pub IsI64 : ℤ → Type 0
IsI64 (pos n) = n < 2 ^ 63
IsI64 (negsuc n) = n < 2 ^ 63

-- `unsigned_abs` of a negative value -(n + 1) is n + 1.
unfoldable pub map_i64 : ℤ → ℕ
map_i64 (pos n) = n * 2 % 2 ^ 64
map_i64 (negsuc n) = (n + 1 - 1) * 2 + 1

unfoldable pub encode_i64 : ℤ → List ℕ
unfolding map_i64
encode_i64 value = encode_u64 (map_i64 value)

unfoldable pub unmap_i64 : ℕ → ℤ
unmap_i64 mapped = if mapped % 2 == 0 then pos (mapped / 2) else negsuc (mapped / 2)

unfoldable pub decode_i64 : List ℕ → Result IntegerError ℤ
unfolding unmap_i64
decode_i64 bytes = do mapped ← decode_u64 bytes; ok (unmap_i64 mapped)

map_i64-unmap : (v : ℤ) → IsI64 v → (map_i64 v < 2 ^ 64) × (unmap_i64 (map_i64 v) ≡ v)
unfolding map_i64 unmap_i64
map_i64-unmap (pos n) h = ground arith
map_i64-unmap (negsuc n) h = ground arith

unmap_i64-map : (m : ℕ) → m < 2 ^ 64 → IsI64 (unmap_i64 m) × (map_i64 (unmap_i64 m) ≡ m)
unfolding map_i64 unmap_i64
unmap_i64-map m h = ground arith

-- Every i64 is read back from its encoding.
pub decode-encode_i64 : (v : ℤ) → IsI64 v → decode_i64 (encode_i64 v) ≡ ok v
unfolding decode_i64 encode_i64
decode-encode_i64 v h =
    let (fits, same) = map_i64-unmap v h in rw (decode_u64-encode (map_i64 v) fits, same)

-- What is decoded is an i64, and the input is its one encoding.
pub encode-decode_i64 :
    (bytes : List ℕ) (v : ℤ)
    → All IsByte bytes
    → decode_i64 bytes ≡ ok v
    → IsI64 v × (bytes ≡ encode_i64 v)
unfolding decode_i64 encode_i64
encode-decode_i64 bytes v hb e =
    let (m, em, ev) = >>=-eq-ok (decode_u64 bytes) (λ mapped. ok (unmap_i64 mapped)) e in
    let (fits, same) = encode_u64-decode bytes m hb em in
    let (range, back) = unmap_i64-map m fits in
    let eq : unmap_i64 m ≡ v = cc ev in rw (← eq) (range, rw back same)
