-- ===== src/Store/Events/Decimal.antt =====
-- A u64 that is written in decimal is read back.
use tith.Base.{
  ℕ, zero, suc, ◌+◌, ◌-◌, ◌*◌, ◌/◌, ◌%◌, ◌^◌, ◌<◌, ◌≡◌, refl, arith, length, length-append, true,
  Bool-cases, ◌&&◌, ltb, ◌==◌, [], ◌∷◌, ◌++◌, Option, none, some, inl, inr,
}
use native.Mathlib.Nat.{pow-succ'}
use tith.Wire.Integer.{IsU64}
use tith.Store.Types.{Text}
use tith.Store.Events.{is_digit, parse_digits, parse_u64, decimal_from, decimal}

abbrev push : Option ℕ → ℕ → Option ℕ
push none c = none
push (some value) c = parse_digits value (c ∷ [])

parse_digits-append :
    (value : ℕ) (text : Text) (c : ℕ)
    → parse_digits value (text ++ c ∷ []) ≡ push (parse_digits value text) c
unfolding parse_digits
parse_digits-append value [] c = refl
parse_digits-append value (d ∷ text) c =
    elim (Bool-cases (is_digit d && ltb (value * 10 + (d - 48)) (2 ^ 64))) [
      | inl e ↦ rw (e, parse_digits-append (value * 10 + (d - 48)) text c)
      | inr e ↦ rw e
    ]

digit-add : (n : ℕ) → n < 10 → is_digit (n + 48) ≡ true
unfolding is_digit
digit-add n h = ground arith

push-digit :
    (value n m : ℕ)
    → n < 10
    → m < 2 ^ 64
    → value * 10 + n ≡ m
    → parse_digits value ((n + 48) ∷ []) ≡ some m
unfolding parse_digits
push-digit value n m small fits e =
    let same : value * 10 + (n + 48 - 48) ≡ m = omega arith in
    let room : ltb m (2 ^ 64) ≡ true = ground arith in rw (same, digit-add n small, room)

pow_step : (n : ℕ) → 10 ^ suc (suc n) ≡ 10 * 10 ^ suc n
pow_step n = pow-succ' 10 (suc n)

parse-decimal_from :
    (fuel n : ℕ) → n < 10 ^ suc fuel → n < 2 ^ 64 → parse_digits 0 (decimal_from fuel n) ≡ some n
unfolding decimal_from
parse-decimal_from zero n bound fits =
    let same : n % 10 ≡ n = omega arith in
    rw same (push-digit 0 n n (omega arith) (omega arith) (omega arith))
parse-decimal_from (suc fuel) n bound fits = elim (Bool-cases (ltb n 10)) [
  | inl e ↦ rw (e, push-digit 0 n n (ground arith) fits (omega arith))
  | inr e ↦
      rw (e, parse_digits-append 0 (decimal_from fuel (n / 10)) (n % 10 + 48))
        (rw (parse-decimal_from fuel (n / 10) (omega (arith, pow_step fuel)) (omega arith))
          (push-digit (n / 10) (n % 10) n (omega arith) (omega arith) (omega arith)))
]

decimal_from-nonempty : (fuel n : ℕ) → 0 < length (decimal_from fuel n)
unfolding decimal_from
decimal_from-nonempty zero n = omega arith
decimal_from-nonempty (suc fuel) n = elim (Bool-cases (ltb n 10)) [
  | inl e ↦ rw e (omega arith)
  | inr e ↦
      rw e (omega (arith, length-append {0} (decimal_from fuel (n / 10)) ((n % 10 + 48) ∷ [])))
]

-- A text that is read as digits does not begin with a sign.
parse_u64-digits :
    (text : Text) (n : ℕ) → 0 < length text → parse_digits 0 text ≡ some n → parse_u64 text ≡ some n
unfolding parse_u64
parse_u64-digits [] n long h = ground arith
parse_u64-digits (c ∷ []) n long h = h
parse_u64-digits (c ∷ d ∷ text) n long h = elim (Bool-cases (c == 43)) [
  | inl e ↦ unfold parse_digits is_digit in ground arith
  | inr e ↦ rw (e, h)
]

pub parse_u64-decimal : (n : ℕ) → IsU64 n → parse_u64 (decimal n) ≡ some n
unfolding decimal
parse_u64-decimal n h =
    parse_u64-digits (decimal_from 20 n) n (decimal_from-nonempty 20 n)
      (parse-decimal_from 20 n (omega arith) (omega arith))
