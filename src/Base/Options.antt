-- ===== src/Base/Options.antt =====
-- `?` on an `Option`, `is_some_and`, and `bool::then`. A module that writes do blocks over options
-- takes the bind from here.
use mathlib.Core.Path.{◌≡◌, refl}
use mathlib.Core.Logic.{◌≢◌, ◌⊎◌, inl, inr}
use mathlib.Core.Bool.{Bool, true, false}
use mathlib.Core.Option.{Option, none, some}
use tith.Base.Tests.{if◌then◌else◌}

module _ {ℓ} {A B : Type ℓ} where
  infixl 5 ◌>>=◌ ◌>>◌
  abbrev pub ◌>>=◌ : Option A → (A → Option B) → Option B
  none >>= next = none
  some value >>= next = next value

  abbrev pub ◌>>◌ : Option A → Option B → Option B
  first >> second = first >>= λ _. second

  pub >>=-eq-some :
      (first : Option A) (next : A → Option B) {result : B}
      → (first >>= next) ≡ some result
      → (value : A) × (first ≡ some value) × (next value ≡ some result)
  >>=-eq-some none next path = cc
  >>=-eq-some (some value) next path = (value, refl, path)

module _ {ℓ} {A : Type ℓ} where
  abbrev pub is_some : Option A → Bool
  is_some none = false
  is_some (some value) = true

  abbrev pub is_some_and : (A → Bool) → Option A → Bool
  is_some_and test none = false
  is_some_and test (some value) = test value

  -- `test.then(|| value)`.
  abbrev pub then_some : Bool → A → Option A
  then_some true value = some value
  then_some false value = none

  abbrev pub unwrap_or : A → Option A → A
  unwrap_or default none = default
  unwrap_or default (some value) = value

  -- `or` of two options.
  abbrev pub or_else : Option A → Option A → Option A
  or_else none other = other
  or_else (some value) other = some value

  pub then_some-eq-some :
      (test : Bool) (value : A) {result : A}
      → then_some test value ≡ some result
      → (test ≡ true) × (value ≡ result)
  then_some-eq-some true value path = (refl, cc)
  then_some-eq-some false value path = cc

  pub some-injective : {x y : A} → some x ≡ some y → x ≡ y
  some-injective path = cc

  pub none-ne-some : {x : A} → none ≢ some x
  none-ne-some path = cc

  pub if-eq-some :
      (test : Bool) (first second : Option A) {x : A}
      → (if test then first else second) ≡ some x
      → ((test ≡ true) × (first ≡ some x)) ⊎ ((test ≡ false) × (second ≡ some x))
  if-eq-some true first second path = inl (refl, path)
  if-eq-some false first second path = inr (refl, path)
