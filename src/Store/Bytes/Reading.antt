-- ===== src/Store/Bytes/Reading.antt =====
-- crates/tith-store/src/lib.rs: each `take` reads back what its `put` wrote.
use tith.Base.{
  ℕ, zero, suc, ◌+◌, ◌*◌, ◌/◌, ◌%◌, ◌^◌, ◌<◌, ◌≡◌, refl, ◌∙◌, subst, arith, true, false, ltb, List,
  [], ◌∷◌, ◌++◌, length, take, drop, take_append, drop_append, length-append, append_assoc, Option,
  none, some, ok,
}
use native.Mathlib.Nat.{pow-succ'}
use tith.Wire.Integer.{IsU64}
use tith.Wire.Cursor.{is_utf8}
use tith.Store.Types.{Text}
use tith.Store.Bytes.{
  Reader, to_be, from_be, split_off, put_u64, take_u64, put_bytes, take_bytes, put_string,
  take_string, take_byte, take_bytes_fixed, put_optional, take_optional, put_optional_string,
  take_optional_string, put_optional_u64, take_optional_u64,
}

abbrev pub IsText : Text → Type 0
IsText s = (is_utf8 s ≡ true) × IsU64 (length s)

abbrev pub IsOptional : {A : Type 0} → (A → Type 0) → Option A → Type 0
IsOptional P none = Unit
IsOptional P (some a) = P a

from_be-append : (v : ℕ) (xs : List ℕ) (b : ℕ) → from_be v (xs ++ b ∷ []) ≡ from_be v xs * 256 + b
unfolding from_be
from_be-append v [] b = refl
from_be-append v (x ∷ xs) b = from_be-append (v * 256 + x) xs b

pub length-to_be : (n v : ℕ) → length (to_be n v) ≡ n
unfolding to_be
length-to_be zero v = refl
length-to_be (suc n) v =
    omega (arith, length-append {0} (to_be n (v / 256)) (v % 256 ∷ []), length-to_be n (v / 256))

pow_step : (n : ℕ) → 256 ^ suc n ≡ 256 * 256 ^ n
pow_step n = pow-succ' 256 n

pub from-to_be : (n v : ℕ) → v < 256 ^ n → from_be 0 (to_be n v) ≡ v
unfolding to_be
from-to_be zero v h = unfold from_be in omega arith
from-to_be (suc n) v h =
    from_be-append 0 (to_be n (v / 256)) (v % 256)
    ∙ omega (arith, from-to_be n (v / 256) (omega (arith, pow_step n)))

pub split_off-append :
    (bytes rest : List ℕ) (n : ℕ)
    → length bytes ≡ n
    → split_off n (bytes ++ rest) ≡ ok (bytes, rest)
unfolding split_off
split_off-append bytes rest n e =
    let enough : ltb (length (bytes ++ rest)) n ≡ false =
      ground (arith, length-append bytes rest, e) in
    let front : take n (bytes ++ rest) ≡ bytes =
      subst (λ k. take k (bytes ++ rest) ≡ bytes) e (take_append bytes rest) in
    let back : drop n (bytes ++ rest) ≡ rest =
      subst (λ k. drop k (bytes ++ rest) ≡ rest) e (drop_append bytes rest) in
    rw (enough, front, back)

pub take_u64-put : (v : ℕ) (rest : List ℕ) → IsU64 v → take_u64 (put_u64 v ++ rest) ≡ ok (v, rest)
unfolding take_u64 put_u64
take_u64-put v rest h =
    rw (split_off-append (to_be 8 v) rest 8 (length-to_be 8 v), from-to_be 8 v (omega (arith, h)))

pub take_bytes-put :
    (bytes rest : List ℕ)
    → IsU64 (length bytes)
    → take_bytes (put_bytes bytes ++ rest) ≡ ok (bytes, rest)
unfolding take_bytes put_bytes
take_bytes-put bytes rest h =
    rw
      (
        append_assoc (put_u64 (length bytes)) bytes rest,
        take_u64-put (length bytes) (bytes ++ rest) h,
      )
      (split_off-append bytes rest (length bytes) refl)

pub take_string-put :
    (s rest : List ℕ) → IsText s → take_string (put_string s ++ rest) ≡ ok (s, rest)
unfolding take_string put_string
take_string-put s rest h = rw (take_bytes-put s rest h.1, h.0)

pub take_bytes_fixed-append :
    (n : ℕ) (bytes rest : List ℕ)
    → length bytes ≡ n
    → take_bytes_fixed n (bytes ++ rest) ≡ ok (bytes, rest)
unfolding take_bytes_fixed
take_bytes_fixed-append n bytes rest e = split_off-append bytes rest n e

-- What is read of one value is read of it behind its tag.
pub take_optional-put :
    {A : Type 0} (P : A → Type 0) (put : A → List ℕ) (reader : Reader A)
    → ((a : A) (rest : List ℕ) → P a → reader (put a ++ rest) ≡ ok (a, rest))
    → (value : Option A) (rest : List ℕ) → IsOptional P value
    → take_optional reader (put_optional put value ++ rest) ≡ ok (value, rest)
unfolding take_optional put_optional take_byte
take_optional-put P put reader reads none rest h = refl
take_optional-put P put reader reads (some a) rest h = rw (reads a rest h)

pub take_optional_string-put :
    (value : Option Text) (rest : List ℕ)
    → IsOptional IsText value
    → take_optional_string (put_optional_string value ++ rest) ≡ ok (value, rest)
unfolding take_optional_string put_optional_string
take_optional_string-put = take_optional-put IsText put_string take_string take_string-put

pub take_optional_u64-put :
    (value : Option ℕ) (rest : List ℕ)
    → IsOptional IsU64 value
    → take_optional_u64 (put_optional_u64 value ++ rest) ≡ ok (value, rest)
unfolding take_optional_u64 put_optional_u64
take_optional_u64-put = take_optional-put IsU64 put_u64 take_u64 take_u64-put
