-- ===== src/Base/Results.antt =====
-- Rust's `Result`, its `?` operator as a bind, and `map_err`.
use mathlib.Core.Path.{◌≡◌, refl}
use mathlib.Core.Logic.{◌⊎◌, inl, inr}
use mathlib.Core.Option.{Option, none, some}
use mathlib.Core.Bool.{Bool, true, false}

pub data Result {ℓ} (E A : Type ℓ) : Type ℓ where
  ok : A → Result E A
  err : E → Result E A

-- `?` on a result, and on one whose value is dropped.
module _ {ℓ} {E A B : Type ℓ} where
  infixl 5 ◌>>=◌ ◌>>◌
  abbrev pub ◌>>=◌ : Result E A → (A → Result E B) → Result E B
  err reason >>= next = err reason
  ok value >>= next = next value

  abbrev pub ◌>>◌ : Result E A → Result E B → Result E B
  first >> second = first >>= λ _. second

abbrev pub map_err {ℓ} : {E F A : Type ℓ} → (E → F) → Result E A → Result F A
map_err f (ok a) = ok a
map_err f (err e) = err (f e)

-- `ok_or`.
abbrev pub ok_or {ℓ} : {E A : Type ℓ} → E → Option A → Result E A
ok_or e none = err e
ok_or e (some a) = ok a

-- An early `return Err(e)` unless the test holds.
abbrev pub ensure : {E : Type 0} → Bool → E → Result E (Unit {0})
ensure true e = ok tt
ensure false e = err e

pub Result-cases {ℓ} :
    {E A : Type ℓ} (r : Result E A) → ((a : A) × (r ≡ ok a)) ⊎ ((e : E) × (r ≡ err e))
Result-cases (ok a) = inl (a, refl)
Result-cases (err e) = inr (e, refl)

pub ok-injective {ℓ} : {E A : Type ℓ} {a b : A} → ◌≡◌ {A = Result E A} (ok a) (ok b) → a ≡ b
ok-injective h = cc

pub map_err-eq-ok {ℓ} :
    {E F A : Type ℓ} (f : E → F) (r : Result E A) {a : A} → map_err f r ≡ ok a → r ≡ ok a
map_err-eq-ok f (ok b) h = cc
map_err-eq-ok f (err e) h = cc

pub ensure-eq-ok : {E : Type 0} (b : Bool) (e : E) → ensure b e ≡ ok tt → b ≡ true
ensure-eq-ok true e h = refl
ensure-eq-ok false e h = cc

-- The same for the two sources of an early return.
pub ok_or-bind {ℓ} :
    {E A B : Type ℓ} (e : E) (o : Option A) (f : A → Result E B) {b : B}
    → (ok_or e o >>= f) ≡ ok b
    → (a : A) × (o ≡ some a) × (f a ≡ ok b)
ok_or-bind e none f h = cc
ok_or-bind e (some a) f h = (a, refl, h)

pub ensure-bind :
    {E B : Type 0} (t : Bool) (e : E) (k : Result E B) {b : B}
    → (ensure t e >> k) ≡ ok b
    → (t ≡ true) × (k ≡ ok b)
ensure-bind true e k h = (refl, h)
ensure-bind false e k h = cc

-- Inversion: a chain succeeds where both parts do, and fails where one of them does.
module _ {ℓ} {E A B : Type ℓ} where
  pub >>=-eq-ok :
      (first : Result E A) (next : A → Result E B) {result : B}
      → (first >>= next) ≡ ok result
      → (value : A) × (first ≡ ok value) × (next value ≡ ok result)
  >>=-eq-ok (err reason) next path = cc
  >>=-eq-ok (ok value) next path = (value, refl, path)

  pub >>=-eq-err :
      (first : Result E A) (next : A → Result E B) {reason : E}
      → (first >>= next) ≡ err reason
      → (first ≡ err reason) ⊎ ((value : A) × (first ≡ ok value) × (next value ≡ err reason))
  >>=-eq-err (err other) next path = inl (cc)
  >>=-eq-err (ok value) next path = inr (value, refl, path)
