-- ===== src/Store/KeyPin/Slices.antt =====
-- crates/tith-store/src/key_pin.rs: slices of a list of bytes, and the bytes of a number.
use tith.Base.{
  ℕ, zero, suc, ◌+◌, ◌*◌, ◌/◌, ◌%◌, ◌<◌, ◌≡◌, refl, sym, ap, ◌∙◌, arith, List, [], ◌∷◌, ◌++◌,
  length, take, drop, take-append-drop, append-nil, append_assoc, get_or, All,
}
use native.Mathlib.Nat.{zero-add, add-zero, add-suc, suc-add}
use tith.Wire.Integer.{IsByte}
use tith.Store.Bytes.{to_be, from_be}

pub drop-get_or :
    (n : ℕ) (xs : List ℕ) → n < length xs → drop n xs ≡ get_or xs n 0 ∷ drop (suc n) xs
drop-get_or n [] h = absurd (omega (arith, h))
drop-get_or zero (x ∷ xs) h = refl
drop-get_or (suc n) (x ∷ xs) h = drop-get_or n xs (omega arith)

drop-drop : (n m : ℕ) (xs : List ℕ) → drop m (drop n xs) ≡ drop (n + m) xs
drop-drop zero m xs = rw zero-add
drop-drop (suc n) zero [] = rw (suc-add n zero)
drop-drop (suc n) (suc m) [] = rw (suc-add n (suc m))
drop-drop (suc n) m (x ∷ xs) = rw (suc-add n m) (drop-drop n m xs)

-- A slice, and what stands behind it.
pub drop-slice : (n m : ℕ) (xs : List ℕ) → drop n xs ≡ take m (drop n xs) ++ drop (n + m) xs
drop-slice n m xs =
    sym (take-append-drop m (drop n xs)) ∙ ap (λ ys. take m (drop n xs) ++ ys) (drop-drop n m xs)

to_be-from_be_onto :
    (n v : ℕ) (bytes : List ℕ)
    → All IsByte bytes
    → to_be (n + length bytes) (from_be v bytes) ≡ to_be n v ++ bytes
unfolding from_be
to_be-from_be_onto n v [] h = rw add-zero (sym (append-nil (to_be n v)))
to_be-from_be_onto n v (b ∷ bytes) (small, hs) =
    let quotient : (v * 256 + b) / 256 ≡ v = omega (arith, small) in
    let remainder : (v * 256 + b) % 256 ≡ b = omega (arith, small) in
    let last : to_be (suc n) (v * 256 + b) ≡ to_be n v ++ b ∷ [] =
      unfold to_be in rw (quotient, remainder) in
    rw (add-suc n (length bytes), ← suc-add n (length bytes))
      (to_be-from_be_onto (suc n) (v * 256 + b) bytes hs
        ∙ ap (λ front. front ++ bytes) last
        ∙ append_assoc (to_be n v) (b ∷ []) bytes)

pub to_be-from_be :
    (n : ℕ) (bytes : List ℕ)
    → length bytes ≡ n
    → All IsByte bytes
    → to_be n (from_be 0 bytes) ≡ bytes
unfolding to_be
to_be-from_be n bytes size h =
    rw (← size, ← zero-add (length bytes)) (to_be-from_be_onto 0 0 bytes h)
