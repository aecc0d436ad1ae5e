-- ===== src/Ledger/Pieces.antt =====
-- The texts, numbers and lists of the stored forms of crates/tith-ledger/src/lib.rs, read back.
use tith.Base.{
  ℕ, zero, suc, ◌/◌, ◌^◌, ◌≤◌, ◌<◌, ◌≡◌, refl, ap, subst, arith, true, false, ltb, List, [], ◌∷◌,
  ◌++◌, length, take, drop, take_append, drop_append, length-append, append_assoc, All, some,
}
use native.Mathlib.Nat.{pow-succ'}
use tith.Wire.Integer.{IsU64}
use tith.Wire.Cursor.{is_utf8}
use tith.Ledger.{Text}
use tith.Ledger.Bytes.{
  Taker, to_le, from_le, take_fixed, u32_max, u32_length, push_string, take_string, push_bytes,
  take_bytes, take_text, push_all, take_all,
}

abbrev pub IsText : Text → Type 0
IsText text = (is_utf8 text ≡ true) × (length text ≤ u32_max)

abbrev pub IsLongText : Text → Type 0
IsLongText text = (is_utf8 text ≡ true) × IsU64 (length text)

pub length-to_le : (n v : ℕ) → length (to_le n v) ≡ n
unfolding to_le
length-to_le zero v = refl
length-to_le (suc n) v = ap suc (length-to_le n (v / 256))

pub from-to_le : (n v : ℕ) → v < 256 ^ n → from_le (to_le n v) ≡ v
unfolding to_le from_le
from-to_le zero v h = omega arith
from-to_le (suc n) v h = omega (arith, from-to_le n (v / 256) (omega (arith, pow-succ' 256 n)))

pub take_fixed-append :
    (n : ℕ) (bytes rest : List ℕ)
    → length bytes ≡ n
    → take_fixed n (bytes ++ rest) ≡ some (bytes, rest)
unfolding take_fixed
take_fixed-append n bytes rest e =
    let enough : ltb (length (bytes ++ rest)) n ≡ false =
      ground (arith, length-append bytes rest, e) in
    rw
      (
        enough,
        subst (λ k. take k (bytes ++ rest) ≡ bytes) e (take_append bytes rest),
        subst (λ k. drop k (bytes ++ rest) ≡ rest) e (drop_append bytes rest),
      )
      refl

pub take_fixed-to_le :
    (n v : ℕ) (rest : List ℕ) → take_fixed n (to_le n v ++ rest) ≡ some (to_le n v, rest)
take_fixed-to_le n v rest = take_fixed-append n (to_le n v) rest (length-to_le n v)

pub u32_length-small : (n : ℕ) → n ≤ u32_max → u32_length n ≡ n
u32_length-small n h = ground arith

pub take-length : {A : Type 0} (xs : List A) → take (length xs) xs ≡ xs
take-length [] = refl
take-length (x ∷ xs) = rw (take-length xs)

pub take_string-push :
    (text rest : List ℕ) → IsText text → take_string (push_string text ++ rest) ≡ some (text, rest)
unfolding take_string push_string
take_string-push text rest (utf8, small) = rw (
  u32_length-small (length text) small,
  take-length text,
  append_assoc (to_le 4 (length text)) text rest,
  take_fixed-to_le 4 (length text) (text ++ rest),
  from-to_le 4 (length text) (omega arith),
  take_fixed-append (length text) text rest refl,
  utf8,
)

pub take_bytes-push :
    (bytes rest : List ℕ)
    → IsU64 (length bytes)
    → take_bytes (push_bytes bytes ++ rest) ≡ some (bytes, rest)
unfolding take_bytes push_bytes
take_bytes-push bytes rest small = rw (
  append_assoc (to_le 8 (length bytes)) bytes rest,
  take_fixed-to_le 8 (length bytes) (bytes ++ rest),
  from-to_le 8 (length bytes) (omega arith),
  take_fixed-append (length bytes) bytes rest refl,
)

pub take_text-push :
    (text rest : List ℕ) → IsLongText text → take_text (push_bytes text ++ rest) ≡ some (text, rest)
unfolding take_text
take_text-push text rest (utf8, small) = rw (take_bytes-push text rest small, utf8)

pub take_all-push :
    {A : Type 0} (P : A → Type 0) (push : A → List ℕ) (reader : Taker A)
    → ((a : A) (rest : List ℕ) → P a → reader (push a ++ rest) ≡ some (a, rest))
    → (values : List A) (rest : List ℕ) → All P values
    → take_all reader (length values) (push_all push values ++ rest) ≡ some (values, rest)
unfolding take_all push_all
take_all-push P push reader reads [] rest h = refl
take_all-push P push reader reads (a ∷ values) rest h = rw (
  append_assoc (push a) (push_all push values) rest,
  reads a _ h.0,
  take_all-push P push reader reads values rest h.1,
)
